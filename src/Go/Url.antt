-- ===== src/Go/Url.antt =====
-- url.PathUnescape.
pub mod Laws
use mathlib.Core.Option
use zip_extraction.Common.{
  ℕ, ◌+◌, ◌-◌, ◌*◌, Bool, ◌&&◌, ◌||◌, Option, none, some, [], ◌∷◌, leb, ◌==◌, if◌then◌else◌,
}
use zip_extraction.Go.Strings.{Text}

is_hex : ℕ → Bool
is_hex c = (leb b'0' c && leb c b'9') || ((leb b'a' c && leb c b'f') || (leb b'A' c && leb c b'F'))

un_hex : ℕ → ℕ
un_hex c = if leb c b'9' then c - b'0' else if leb b'a' c then c - b'a' + 10 else c - b'A' + 10

abbrev prepend : ℕ → Option Text → Option Text
prepend c none = none
prepend c (some s) = some (c ∷ s)

-- `none` is the error: a `%` that two hexadecimal digits do not follow.
unfoldable pub path_unescape : Text → Option Text
unfolding is_hex un_hex
path_unescape [] = some []
path_unescape (c ∷ []) = if c == b'%' then none else some (c ∷ [])
path_unescape (c ∷ a ∷ []) = if c == b'%' then none else prepend c (path_unescape (a ∷ []))
path_unescape (c ∷ a ∷ b ∷ s) =
    let decoded = prepend (un_hex a * 16 + un_hex b) (path_unescape s) in
    let plain = prepend c (path_unescape (a ∷ b ∷ s)) in
    if c == b'%' then (if is_hex a && is_hex b then decoded else none) else plain
