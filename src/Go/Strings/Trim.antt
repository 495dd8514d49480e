-- ===== src/Go/Strings/Trim.antt =====
-- strings.TrimSpace, as the test whether its result is empty, and strings.TrimRight.
use zip_extraction.Common.{
  ℕ, Bool, true, false, ◌&&◌, ◌||◌, [], ◌∷◌, ◌==◌, leb, if◌then◌else◌, is_empty,
}
use zip_extraction.Go.Strings.{Text}

-- a byte of white space in ASCII
is_space : ℕ → Bool
is_space c = (leb 9 c && leb c 13) || c == b' '

-- a white space of Unicode beyond ASCII of two bytes, or of three
is_space2 : ℕ → ℕ → Bool
is_space2 a b = a == 0xc2 && (b == 0x85 || b == 0xa0)

is_space3 : ℕ → ℕ → ℕ → Bool
is_space3 a b c =
    (a == 0xe1 && (b == 0x9a && c == 0x80))
    || ((a == 0xe2
          && (b == 0x80 && ((leb 0x80 c && leb c 0x8a) || (c == 0xa8 || (c == 0xa9 || c == 0xaf)))))
        || ((a == 0xe2 && (b == 0x81 && c == 0x9f)) || (a == 0xe3 && (b == 0x80 && c == 0x80))))

-- strings.TrimSpace(s) == ""
unfoldable pub is_blank : Text → Bool
unfolding is_space is_space2 is_space3
is_blank [] = true
is_blank (a ∷ []) = is_space a
is_blank (a ∷ b ∷ []) = (is_space a && is_space b) || is_space2 a b
is_blank (a ∷ b ∷ c ∷ s) =
    let rest3 = is_blank s in
    let rest2 = is_blank (c ∷ s) in
    let rest1 = is_blank (b ∷ c ∷ s) in
    if is_space a
    then rest1
    else if is_space2 a b
    then rest2
    else if is_space3 a b c
    then rest3
    else false

-- strings.TrimRight(s, "/")
unfoldable pub trim_right_slashes : Text → Text
trim_right_slashes [] = []
trim_right_slashes (c ∷ s) =
    let rest = trim_right_slashes s in if is_empty rest && c == b'/' then [] else c ∷ rest
