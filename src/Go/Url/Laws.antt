-- ===== src/Go/Url/Laws.antt =====
-- A text with no `%` is its own decoding.
use zip_extraction.Common.{◌≡◌, refl, some, [], ◌∷◌, arith}
use zip_extraction.Go.Strings.{Text}
use zip_extraction.Go.Strings.Laws.{NoByte}
use zip_extraction.Go.Url.{path_unescape}

pub path_unescape_plain : (s : Text) → NoByte b'%' s → path_unescape s ≡ some s
unfolding path_unescape
path_unescape_plain [] h = refl
path_unescape_plain (c ∷ []) h = ground arith
path_unescape_plain (c ∷ a ∷ []) h = ground arith
path_unescape_plain (c ∷ a ∷ b ∷ s) h = ground (arith, path_unescape_plain (a ∷ b ∷ s) h.1)

path_unescape_runs : (path_unescape (b'%' ∷ b'2' ∷ b'e' ∷ b'x' ∷ []) ≡ some (b'.' ∷ b'x' ∷ []))
unfolding path_unescape
path_unescape_runs = refl
