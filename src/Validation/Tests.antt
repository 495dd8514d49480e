-- ===== src/Validation/Tests.antt =====
-- Runs of `sanitize`, and its theorems at concrete paths.
use zip_extraction.Common.{◌≡◌, ◌⊎◌, refl, arith, [], ◌∷◌}
use zip_extraction.Go.Strings.{text, str_eq, has_prefix, contains, replace_all, split, after_last}
use zip_extraction.Go.Utf8.{valid_string, runes}
use zip_extraction.Go.Url.{path_unescape}
use zip_extraction.Go.Path.{clean, join}
use zip_extraction.Extraction.Errors.{
  reason_traversal, reason_absolute, reason_empty, reason_invalid_name,
}
use zip_extraction.Validation.{
  safe, reject, has_drive_letter_prefix, decode, is_traversal, check_base, sanitize,
}
use zip_extraction.Validation.Laws.{IsSafeName, sanitize-IsSafeName}
use zip_extraction.Validation.Rejections.{sanitize_parent}
use zip_extraction.Validation.Directories.{IsSafeDirectory}

runs : Unit {0}
unfolding sanitize decode is_traversal check_base text str_eq has_prefix contains replace_all split
    after_last valid_string runes path_unescape clean join has_drive_letter_prefix
runs = tt

sanitize_runs :
    (sanitize (text "docs/./a//é.txt") ≡ safe (text "é.txt"))
    × (sanitize (text "a\\b%2ftxt") ≡ safe (text "txt"))
    × (sanitize (text "a/%2e%2e/b") ≡ reject (text "a/%2e%2e/b") reason_traversal)
    × (sanitize (text "/etc") ≡ reject (text "/etc") reason_absolute)
    × (sanitize (text "c:x") ≡ reject (text "c:x") reason_absolute)
    × (sanitize (text "./") ≡ reject (text "./") reason_empty)
    × (sanitize (text "a/b%00") ≡ reject (text "a/b%00") reason_invalid_name)
    × (sanitize (text "100%") ≡ safe (text "100%"))
unfolding runs
sanitize_runs = (refl, refl, refl, refl, refl, refl, refl, refl)

-- What was encoded twice is decoded by a second pass.
encoded_twice :
    (sanitize (text "a/%252e%252e") ≡ safe (text "%2e%2e"))
    × (sanitize (text "%2e%2e") ≡ reject (text "%2e%2e") reason_traversal)
unfolding runs
encoded_twice = (refl, refl)

sanitize-IsSafeName_example : IsSafeName (text "é.txt")
sanitize-IsSafeName_example =
    sanitize-IsSafeName (text "docs/./a//é.txt") (text "é.txt") sanitize_runs.0

sanitize_parent_example :
    (sanitize (text "a/%2e%2e/b") ≡ reject (text "a/%2e%2e/b") reason_traversal)
    ⊎ (sanitize (text "a/%2e%2e/b") ≡ reject (text "a/%2e%2e/b") reason_absolute)
unfolding runs
sanitize_parent_example =
    sanitize_parent (text "a/%2e%2e/b") (text "a" ∷ []) (text "b" ∷ []) (λ e. ground arith)
      (omega arith, tt) (omega arith, tt) refl

drive_name : IsSafeName (text "c:x")
unfolding runs
drive_name = record {
  plain = record {
    nonempty = λ e. ground arith;
    not_dot = λ e. ground arith;
    not_dot_dot = λ e. ground arith;
    no_slash = omega arith;
  };
  no_backslash = omega arith;
  printable = (refl, (refl, (refl, tt)));
  valid = refl;
  length_le = omega arith;
}

docs : IsSafeDirectory (text "docs")
unfolding runs
docs = record {
  plain = record {
    nonempty = λ e. ground arith;
    not_dot = λ e. ground arith;
    not_dot_dot = λ e. ground arith;
    no_slash = omega arith;
  };
  no_backslash = omega arith;
  no_percent = omega arith;
  no_drive = refl;
}
