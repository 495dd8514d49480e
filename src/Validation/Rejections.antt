-- ===== src/Validation/Rejections.antt =====
-- Paths that no name comes out of.
use zip_extraction.Common.{
  ◌≡◌, ◌≢◌, ◌⊎◌, refl, ap, ◌∙◌, true, List, [], ◌∷◌, ◌++◌, arith, All, All-append, any,
}
use zip_extraction.Go.Strings.{Text, split, str_eq}
use zip_extraction.Go.Strings.Laws.{NoByte, str_eq_refl}
use zip_extraction.Go.Path.{dot_dot, join}
use zip_extraction.Go.Path.Laws.{split-join}
use zip_extraction.Extraction.Errors.{reason_traversal, reason_absolute}
use zip_extraction.Validation.{reject, decode, sanitize}

any-dot_dot : (es fs : List Text) → any (λ seg. str_eq seg dot_dot) (es ++ (dot_dot ∷ fs)) ≡ true
any-dot_dot [] fs = rw (str_eq_refl dot_dot)
any-dot_dot (e ∷ es) fs = ground (arith, any-dot_dot es fs)

split_parent :
    (es fs : List Text)
    → All (NoByte b'/') es
    → All (NoByte b'/') fs
    → split (join (es ++ (dot_dot ∷ fs))) b'/' ≡ es ++ (dot_dot ∷ fs)
split_parent [] fs h k = split-join dot_dot fs ((omega arith, (omega arith, tt)), k)
split_parent (e ∷ es) fs h k =
    split-join e (es ++ (dot_dot ∷ fs))
      (h.0, All-append (NoByte b'/') es (dot_dot ∷ fs) h.1 ((omega arith, (omega arith, tt)), k))

-- A path whose decoded form has an element `..`, wherever it stands, is rejected as a traversal or
-- as an absolute path.
pub sanitize_parent :
    (raw : Text) (es fs : List Text)
    → raw ≢ []
    → All (NoByte b'/') es
    → All (NoByte b'/') fs
    → decode raw ≡ join (es ++ (dot_dot ∷ fs))
    → (sanitize raw ≡ reject raw reason_traversal) ⊎ (sanitize raw ≡ reject raw reason_absolute)
unfolding sanitize
sanitize_parent [] es fs n h k e = absurd (n refl)
sanitize_parent (c ∷ raw) es fs n h k e = ground (
  arith,
  ap (λ s. split s b'/') e ∙ split_parent es fs h k,
  ap (any (λ seg. str_eq seg dot_dot)) (ap (λ s. split s b'/') e ∙ split_parent es fs h k),
  any-dot_dot es fs,
)
