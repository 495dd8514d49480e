-- ===== src/Go/Strings.antt =====
-- Go's `string` and its package `strings`: a string is its bytes. Search and split are by one byte
-- where the service does so.
pub mod Laws
pub mod Search
pub mod Trim
use Prim.Native.Char.{code}
use Prim.Native.String
use zip_extraction.Common.{
  ℕ, ◌+◌, ◌-◌, ◌*◌, ◌/◌, ◌%◌, String, Bool, true, false, ◌&&◌, ◌||◌, List, [], ◌∷◌, ◌++◌, ltb, leb,
  ◌==◌, if◌then◌else◌, length, drop,
}

abbrev pub Text : Type 0
Text = List ℕ

-- the UTF-8 bytes of a code point
encode_rune : ℕ → Text
encode_rune c =
    if ltb c 0x80
    then c ∷ []
    else if ltb c 0x800
    then (0xc0 + c / 64) ∷ (0x80 + c % 64) ∷ []
    else if ltb c 0x10000
    then (0xe0 + c / 4096) ∷ (0x80 + c / 64 % 64) ∷ (0x80 + c % 64) ∷ []
    else (0xf0 + c / 262144) ∷ (0x80 + c / 4096 % 64) ∷ (0x80 + c / 64 % 64) ∷ (0x80 + c % 64) ∷ []

-- a string literal of the source
unfoldable pub text : String → Text
unfolding encode_rune
text String.[] = []
text (String.◌∷◌ c s) = encode_rune (code c) ++ text s

-- `s == t`
unfoldable pub str_eq : Text → Text → Bool
str_eq [] [] = true
str_eq (x ∷ xs) (y ∷ ys) = x == y && str_eq xs ys
str_eq _ _ = false

-- strings.HasPrefix(s, prefix)
unfoldable pub has_prefix : Text → Text → Bool
has_prefix s [] = true
has_prefix [] (y ∷ ys) = false
has_prefix (x ∷ xs) (y ∷ ys) = x == y && has_prefix xs ys

-- strings.TrimPrefix(s, prefix)
unfoldable pub trim_prefix : Text → Text → Text
unfolding has_prefix
trim_prefix s prefix = if has_prefix s prefix then drop (length prefix) s else s

-- strings.Contains(s, substr)
unfoldable pub contains : Text → Text → Bool
unfolding has_prefix
contains [] sub = has_prefix [] sub
contains (x ∷ xs) sub = has_prefix (x ∷ xs) sub || contains xs sub

-- strings.ReplaceAll(s, old, new) for strings of one byte
unfoldable pub replace_all : Text → ℕ → ℕ → Text
replace_all [] old new = []
replace_all (c ∷ s) old new = (if c == old then new else c) ∷ replace_all s old new

-- strings.Count(s, sep) for a separator of one byte
unfoldable pub count : Text → ℕ → ℕ
count [] sep = 0
count (c ∷ s) sep = let rest = count s sep in if c == sep then rest + 1 else rest

-- puts a byte in front of the first string
unfoldable pub cons_head : ℕ → List Text → List Text
cons_head c [] = (c ∷ []) ∷ []
cons_head c (s ∷ ss) = (c ∷ s) ∷ ss

-- strings.Split(s, sep) for a separator of one byte
unfoldable pub split : Text → ℕ → List Text
unfolding cons_head
split [] sep = [] ∷ []
split (c ∷ s) sep = let rest = split s sep in if c == sep then [] ∷ rest else cons_head c rest

-- the scan of `after_last`: what stands behind the last separator met
base_from : ℕ → Text → Text → Text
base_from sep [] base = base
base_from sep (c ∷ rest) base = base_from sep rest (if c == sep then rest else base)

-- s[strings.LastIndex(s, sep)+1:], and `s` where there is no `sep`
unfoldable pub after_last : Text → ℕ → Text
unfolding base_from
after_last s sep = base_from sep s s

-- strings.ToLower on ASCII; other bytes are left as they are
unfoldable pub lower_byte : ℕ → ℕ
lower_byte c = if leb b'A' c && leb c b'Z' then c + 32 else c

unfoldable pub to_lower : Text → Text
unfolding lower_byte
to_lower [] = []
to_lower (c ∷ s) = lower_byte c ∷ to_lower s
