-- ===== src/Validation/Directories.antt =====
-- Entries in a directory: which names come out of them, and that a second pass may differ.
use zip_extraction.Common.{ℕ, ◌≡◌, ◌≢◌, refl, false, true, [], ◌∷◌, ◌++◌, arith, All-append}
use zip_extraction.Go.Strings.{Text, str_eq, has_prefix, contains}
use zip_extraction.Go.Strings.Laws.{
  NoByte, str_eq_ne, replace_all_id, after_last_none, after_last-append, split_none, split-append,
}
use zip_extraction.Go.Path.{dot_dot}
use zip_extraction.Go.Path.Laws.{IsPlain, clean_pair}
use zip_extraction.Extraction.Errors.{reason_absolute}
use zip_extraction.Validation.{
  safe, reject, has_drive_letter_prefix, is_traversal, sanitize_decoded, sanitize,
}
use zip_extraction.Validation.Laws.{
  IsSafeName, decode_plain, check_base_safe, has_prefix_dots, contains_none,
}

-- A directory name that the checks of a path let through.
pub record IsSafeDirectory (d : Text) : Type 0 where
  pub plain : IsPlain d
  pub no_backslash : NoByte b'\\' d
  pub no_percent : NoByte b'%' d
  pub no_drive : has_drive_letter_prefix d ≡ false

contains-append :
    (d s t : Text) → NoByte b'/' d → contains (d ++ s) (b'/' ∷ t) ≡ contains s (b'/' ∷ t)
unfolding contains has_prefix
contains-append [] s t h = refl
contains-append (c ∷ d) s t h = ground (arith, contains-append d s t h.1)

has_prefix_dots-pair :
    (d r : Text) → IsPlain d → has_prefix (d ++ (b'/' ∷ r)) (b'.' ∷ b'.' ∷ b'/' ∷ []) ≡ false
unfolding has_prefix str_eq
has_prefix_dots-pair [] r p = refl
has_prefix_dots-pair (c ∷ []) r p = ground arith
has_prefix_dots-pair (c ∷ e ∷ []) r p = ground (arith, str_eq_ne (c ∷ e ∷ []) dot_dot p.not_dot_dot)
has_prefix_dots-pair (c ∷ e ∷ f ∷ d) r p = ground (arith, p.no_slash.1.1.0)

pair-ne-dot_dot : (d r : Text) → str_eq (d ++ (b'/' ∷ r)) dot_dot ≡ false
unfolding str_eq
pair-ne-dot_dot [] r = refl
pair-ne-dot_dot (c ∷ []) r = ground arith
pair-ne-dot_dot (c ∷ e ∷ []) r = ground arith
pair-ne-dot_dot (c ∷ e ∷ f ∷ d) r = ground arith

is_traversal-pair :
    (d r : Text) → IsPlain d → NoByte b'/' r → is_traversal (d ++ (b'/' ∷ r)) ≡ false
unfolding is_traversal
is_traversal-pair d r p h =
    rw
      (
        pair-ne-dot_dot d r,
        has_prefix_dots-pair d r p,
        contains-append d (b'/' ∷ r) (b'.' ∷ b'.' ∷ b'/' ∷ []) p.no_slash,
      )
      (unfold contains has_prefix in
        ground (arith, has_prefix_dots r h, contains_none r (b'.' ∷ b'.' ∷ b'/' ∷ []) h))

no_drive-pair :
    (d r : Text)
    → IsPlain d
    → has_drive_letter_prefix d ≡ false
    → has_drive_letter_prefix (d ++ (b'/' ∷ r)) ≡ false
unfolding has_drive_letter_prefix
no_drive-pair [] r p h = absurd (p.nonempty refl)
no_drive-pair (c ∷ []) r p h = ground arith
no_drive-pair (c ∷ e ∷ d) r p h = h

has_prefix_slash-pair :
    (c : ℕ) (d r : Text) → IsPlain (c ∷ d) → has_prefix (c ∷ d ++ (b'/' ∷ r)) (b'/' ∷ []) ≡ false
unfolding has_prefix
has_prefix_slash-pair c d r p = ground (arith, p.no_slash.0)

-- The name of a file in a directory: the directory is dropped, and nothing of it is tested but
-- what makes it a safe directory.
pub sanitize-pair :
    (d r : Text)
    → IsSafeDirectory d
    → IsSafeName r
    → NoByte b'%' r
    → sanitize (d ++ (b'/' ∷ r)) ≡ safe r
unfolding sanitize sanitize_decoded
sanitize-pair [] r s n p = absurd (s.plain.nonempty refl)
sanitize-pair (c ∷ d) r s n p =
    rw
      (decode_plain (c ∷ d ++ (b'/' ∷ r))
        (All-append (λ x. x ≢ b'%') (c ∷ d) (b'/' ∷ r) s.no_percent (omega arith, p)) no_backslash)
      (rw
        (
          no_drive-pair (c ∷ d) r s.plain s.no_drive,
          split-append (c ∷ d) r b'/' s.plain.no_slash,
          split_none r b'/' n.plain.no_slash,
          str_eq_ne (c ∷ d) dot_dot s.plain.not_dot_dot,
          str_eq_ne r dot_dot n.plain.not_dot_dot,
          clean_pair (c ∷ d) r s.plain n.plain,
          has_prefix_slash-pair c d r s.plain,
          replace_all_id _ b'\\' b'/' no_backslash,
          is_traversal-pair (c ∷ d) r s.plain n.plain.no_slash,
          after_last-append (c ∷ d) r b'/' s.plain.no_slash,
          after_last_none r b'/' n.plain.no_slash,
        )
        (check_base_safe _ r n))
  where
    no_backslash : NoByte b'\\' (c ∷ d ++ (b'/' ∷ r))
    no_backslash =
        All-append (λ x. x ≢ b'\\') (c ∷ d) (b'/' ∷ r) s.no_backslash (omega arith, n.no_backslash)

-- A safe name that begins with a drive letter comes out of a directory as it is, and is rejected
-- when it is sanitised again.
pub sanitize_drive_letter :
    (d r : Text)
    → IsSafeDirectory d
    → IsSafeName r
    → NoByte b'%' r
    → has_drive_letter_prefix r ≡ true
    → (sanitize (d ++ (b'/' ∷ r)) ≡ safe r) × (sanitize r ≡ reject r reason_absolute)
unfolding sanitize
sanitize_drive_letter d [] s n p h = absurd (n.plain.nonempty refl)
sanitize_drive_letter d (c ∷ r) s n p h =
    (sanitize-pair d (c ∷ r) s n p, rw (decode_plain (c ∷ r) p n.no_backslash, h))
