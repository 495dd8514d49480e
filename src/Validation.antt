-- ===== src/Validation.antt =====
-- services/zip-extraction/internal/validation/validator.go: what an entry's path may be, and the
-- name that is made of it.
pub mod Laws
pub mod Directories
pub mod Rejections
mod Tests
use zip_extraction.Common.{
  ℕ, Bool, true, false, ◌&&◌, ◌||◌, Option, none, some, List, [], ◌∷◌, ltb, leb, ◌==◌, not, any,
  if◌then◌else◌, length, is_empty,
}
use zip_extraction.Go.Strings.{Text, str_eq, has_prefix, contains, replace_all, split, after_last}
use zip_extraction.Go.Utf8.{valid_string, runes}
use zip_extraction.Go.Url.{path_unescape}
use zip_extraction.Go.Path.{clean, dot, dot_dot}
use zip_extraction.Extraction.Errors.{
  PathValidationError, reason_traversal, reason_absolute, reason_empty, reason_invalid_name,
}

abbrev pub max_filename_bytes : ℕ
max_filename_bytes = 255

-- The name, or the error.
pub data Sanitized : Type 0 where
  safe : Text → Sanitized
  rejected : PathValidationError → Sanitized

abbrev pub reject : Text → Text → Sanitized
reject path reason = rejected (record { path = path; reason = reason })

is_letter : ℕ → Bool
is_letter c = (leb b'A' c && leb c b'Z') || (leb b'a' c && leb c b'z')

unfoldable pub has_drive_letter_prefix : Text → Bool
unfolding is_letter
has_drive_letter_prefix (c ∷ d ∷ s) = is_letter c && d == b':'
has_drive_letter_prefix _ = false

-- steps 1 and 2
unfoldable pub decode : Text → Text
decode raw_path =
    replace_all (elim (path_unescape raw_path) [ none ↦ raw_path | some s ↦ s ]) b'\\' b'/'

-- steps 6 to 8: the cleaned path, unless it holds a `..`, and its last segment
unfoldable pub is_traversal : Text → Bool
is_traversal cleaned =
    str_eq cleaned dot_dot
    || (has_prefix cleaned (b'.' ∷ b'.' ∷ b'/' ∷ [])
        || contains cleaned (b'/' ∷ b'.' ∷ b'.' ∷ b'/' ∷ []))

unfoldable pub is_control : ℕ → Bool
is_control r = ltb r 0x20 || r == 0x7f

-- steps 9 to 11
unfoldable pub check_base : Text → Text → Sanitized
unfolding is_control
check_base raw_path base =
    if is_empty base || str_eq base dot
    then reject raw_path reason_empty
    else if not (valid_string base)
    then reject raw_path reason_invalid_name
    else if any is_control (runes base)
    then reject raw_path reason_invalid_name
    else if ltb max_filename_bytes (length base)
    then reject raw_path reason_invalid_name
    else safe base

unfoldable pub sanitize_decoded : Text → Text → Sanitized
sanitize_decoded raw_path decoded =
    if has_drive_letter_prefix decoded
    then reject raw_path reason_absolute
    else if has_prefix decoded (b'/' ∷ [])
    then reject raw_path reason_absolute
    else if any (λ seg. str_eq seg dot_dot) (split decoded b'/')
    then reject raw_path reason_traversal
    else let cleaned = replace_all (clean decoded) b'\\' b'/' in
      if is_traversal cleaned
      then reject raw_path reason_traversal
      else check_base raw_path (after_last cleaned b'/')

unfoldable pub sanitize : Text → Sanitized
unfolding sanitize_decoded
sanitize raw_path =
    if is_empty raw_path
    then reject raw_path reason_empty
    else sanitize_decoded raw_path (decode raw_path)
