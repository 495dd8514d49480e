-- ===== src/Validation/Laws.antt =====
-- What a sanitised name is, and when sanitising it again changes nothing.
use zip_extraction.Common.{
  ◌≤◌, ◌≡◌, ◌≢◌, ◌⊎◌, inl, inr, refl, sym, ap, ◌∙◌, true, false, List, [], ◌∷◌, arith, All, any,
  length,
}
use zip_extraction.Go.Strings.{Text, split, str_eq, has_prefix, contains, replace_all, after_last}
use zip_extraction.Go.Strings.Laws.{
  NoByte, str_eq_iff, str_eq_ne, replace_all-NoByte, replace_all_id, after_last-All,
  after_last_none, split_none,
}
use zip_extraction.Go.Utf8.{valid_string, runes}
use zip_extraction.Go.Utf8.Laws.{IsPrintable, IsPrintable-of_runes, runes_of_IsPrintable}
use zip_extraction.Go.Url.Laws.{path_unescape_plain}
use zip_extraction.Go.Path.{clean, dot, dot_dot}
use zip_extraction.Go.Path.Laws.{IsPlain, clean-base, clean_plain, clean-All}
use zip_extraction.Validation.{
  max_filename_bytes, safe, has_drive_letter_prefix, decode, is_traversal, is_control, check_base,
  sanitize_decoded, sanitize,
}

-- A name that names one file of the directory it is put in.
pub record IsSafeName (s : Text) : Type 0 where
  pub plain : IsPlain s
  pub no_backslash : NoByte b'\\' s
  pub printable : All IsPrintable s
  pub valid : valid_string s ≡ true
  pub length_le : length s ≤ max_filename_bytes

-- what `check_base` has tested of the name it returns
record IsChecked (raw base r : Text) : Type 0 where
  same : base ≡ r
  not_dot : r ≢ dot
  valid : valid_string r ≡ true
  no_control : any is_control (runes r) ≡ false
  length_le : length r ≤ max_filename_bytes

check_base-IsChecked :
    (raw base : Text) {r : Text} → check_base raw base ≡ safe r → IsChecked raw base r
unfolding check_base
check_base-IsChecked raw base {r} h = record {
  same = same;
  not_dot = λ e. absurd (ground (arith, (str_eq_iff r dot).1 e, same));
  valid = ground arith;
  no_control = ground arith;
  length_le = ground arith;
}
  where
    same : base ≡ r
    same = ground arith

-- what `sanitize_decoded` has tested before it looks at the name
record IsAccepted (raw decoded r : Text) : Type 0 where
  no_drive : has_drive_letter_prefix decoded ≡ false
  relative : has_prefix decoded (b'/' ∷ []) ≡ false
  no_dot_dot : any (λ seg. str_eq seg dot_dot) (split decoded b'/') ≡ false
  checked : IsChecked raw (after_last (replace_all (clean decoded) b'\\' b'/') b'/') r

sanitize_decoded-IsAccepted :
    (raw decoded : Text) {r : Text}
    → sanitize_decoded raw decoded ≡ safe r
    → IsAccepted raw decoded r
unfolding sanitize_decoded
sanitize_decoded-IsAccepted raw decoded h = record {
  no_drive = ground arith;
  relative = ground arith;
  no_dot_dot = ground arith;
  checked = check_base-IsChecked raw _ (ground arith);
}

no_dot_dot-All :
    (es : List Text) → any (λ seg. str_eq seg dot_dot) es ≡ false → All (λ e. e ≢ dot_dot) es
no_dot_dot-All [] h = tt
no_dot_dot-All (e ∷ es) h =
    (λ q. ground (arith, (str_eq_iff e dot_dot).1 q), no_dot_dot-All es (ground arith))

IsPlain-of_base : {b r : Text} → b ≡ r → r ≢ dot → (b ≡ dot) ⊎ IsPlain b → IsPlain r
IsPlain-of_base e d (inl k) = absurd (d (sym e ∙ k))
IsPlain-of_base e d (inr p) = rw (← e) p

module _ {raw decoded r : Text} where
  IsAccepted-IsSafeName : NoByte b'\\' decoded → IsAccepted raw decoded r → IsSafeName r
  IsAccepted-IsSafeName n a =
      let c = a.checked in
      let e : after_last (clean decoded) b'/' ≡ r =
        ap (λ p. after_last p b'/')
          (sym (
            replace_all_id (clean decoded) b'\\' b'/'
              (clean-All (λ x. x ≢ b'\\') (omega arith) (omega arith) decoded n)))
        ∙ c.same in
      record {
        plain =
            IsPlain-of_base e c.not_dot
              (clean-base decoded a.relative (no_dot_dot-All (split decoded b'/') a.no_dot_dot));
        no_backslash = rw (← e) (
            after_last-All (λ x. x ≢ b'\\') (clean decoded) b'/'
              (clean-All (λ x. x ≢ b'\\') (omega arith) (omega arith) decoded n));
        printable = IsPrintable-of_runes r c.valid (unfold is_control in c.no_control);
        valid = c.valid;
        length_le = c.length_le;
      }

decode-NoByte : (raw : Text) → NoByte b'\\' (decode raw)
unfolding decode
decode-NoByte raw = replace_all-NoByte _ b'\\' b'/' (omega arith)

-- A name that `sanitize` returns is not empty, `.` or `..`, holds no `/`, `\` or control byte, is
-- valid UTF-8 and has at most 255 bytes.
pub sanitize-IsSafeName : (raw r : Text) → sanitize raw ≡ safe r → IsSafeName r
unfolding sanitize
sanitize-IsSafeName raw r h =
    IsAccepted-IsSafeName {raw = raw} (decode-NoByte raw)
      (sanitize_decoded-IsAccepted raw (decode raw) (ground arith))

pub decode_plain : (s : Text) → NoByte b'%' s → NoByte b'\\' s → decode s ≡ s
unfolding decode
decode_plain s h k = rw (path_unescape_plain s h) (replace_all_id s b'\\' b'/' k)

pub check_base_safe : (raw r : Text) → IsSafeName r → check_base raw r ≡ safe r
unfolding check_base
check_base_safe raw [] n = absurd (n.plain.nonempty refl)
check_base_safe raw (c ∷ s) n = ground (
  arith,
  str_eq_ne (c ∷ s) dot n.plain.not_dot,
  runes_of_IsPrintable (c ∷ s) n.printable,
  n.valid,
  n.length_le,
)

has_prefix_slash : (s : Text) → NoByte b'/' s → has_prefix s (b'/' ∷ []) ≡ false
unfolding has_prefix
has_prefix_slash [] h = refl
has_prefix_slash (c ∷ s) h = ground arith

-- where `t` begins with a slash only after other bytes, a text without slashes holds no `t`
pub contains_none : (s t : Text) → NoByte b'/' s → contains s (b'/' ∷ t) ≡ false
unfolding contains has_prefix
contains_none [] t h = refl
contains_none (c ∷ s) t h = ground (arith, contains_none s t h.1)

pub has_prefix_dots : (s : Text) → NoByte b'/' s → has_prefix s (b'.' ∷ b'.' ∷ b'/' ∷ []) ≡ false
unfolding has_prefix
has_prefix_dots [] h = refl
has_prefix_dots (c ∷ []) h = ground arith
has_prefix_dots (c ∷ d ∷ []) h = ground arith
has_prefix_dots (c ∷ d ∷ e ∷ s) h = ground arith

is_traversal_plain : (s : Text) → IsPlain s → is_traversal s ≡ false
unfolding is_traversal
is_traversal_plain s p = rw (
  str_eq_ne s dot_dot p.not_dot_dot,
  has_prefix_dots s p.no_slash,
  contains_none s (b'.' ∷ b'.' ∷ b'/' ∷ []) p.no_slash,
)

-- A safe name with no `%` and no drive letter is left as it is.
pub sanitize_of_IsSafeName :
    (r : Text)
    → IsSafeName r
    → NoByte b'%' r
    → has_drive_letter_prefix r ≡ false
    → sanitize r ≡ safe r
unfolding sanitize sanitize_decoded
sanitize_of_IsSafeName [] n p d = absurd (n.plain.nonempty refl)
sanitize_of_IsSafeName (c ∷ s) n p d =
    rw
      (
        decode_plain (c ∷ s) p n.no_backslash,
        d,
        has_prefix_slash (c ∷ s) n.plain.no_slash,
        split_none (c ∷ s) b'/' n.plain.no_slash,
        str_eq_ne (c ∷ s) dot_dot n.plain.not_dot_dot,
        clean_plain (c ∷ s) n.plain,
        replace_all_id (c ∷ s) b'\\' b'/' n.no_backslash,
        is_traversal_plain (c ∷ s) n.plain,
        after_last_none (c ∷ s) b'/' n.plain.no_slash,
      )
      (check_base_safe (c ∷ s) (c ∷ s) n)
