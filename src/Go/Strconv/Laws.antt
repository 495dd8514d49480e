-- ===== src/Go/Strconv/Laws.antt =====
-- A printed number is read back by strconv.Atoi.
use mathlib.Core.Path.{subst}
use zip_extraction.Common.{
  ℕ, suc, ◌+◌, ◌-◌, ◌*◌, ◌≤◌, ◌<◌, ◌≡◌, ◌≢◌, ◌∙◌, sym, ap, refl, true, false, [], ◌∷◌, arith, All,
  leb_iff, ltb_iff, ◌==◌,
}
use zip_extraction.Common.Int.{ℤ, pos, negsuc, two63, two64, InInt64}
use zip_extraction.Go.Strings.{Text}
use zip_extraction.Go.Fmt.{number, decimal, signed_decimal}
use zip_extraction.Go.Fmt.Laws.{IsDigit, number-decimal, decimal-IsDigit, decimal-nonempty}
use zip_extraction.Extraction.Errors.{ok}
use zip_extraction.Go.Strconv.{parse_digits, parse_uint, value, signed, atoi_signed, atoi}

le-number : (n : ℕ) (s : Text) → n ≤ number n s
unfolding number
le-number n [] = omega arith
le-number n (c ∷ s) = omega (arith, le-number (n * 10 + (c - b'0')) s)

parse_digits_lem :
    (n : ℕ) (s : Text) → All IsDigit s → number n s < two64 → parse_digits n s ≡ value (number n s)
unfolding parse_digits number
parse_digits_lem n [] d h = refl
parse_digits_lem n (c ∷ s) d h =
    let n1 = n * 10 + (c - b'0') in
    rw
      (
        (leb_iff b'0' c).1 d.0.0,
        (leb_iff c b'9').1 d.0.1,
        (ltb_iff n1 two64).1 (omega (arith, le-number n1 s, h)),
      )
      (parse_digits_lem n1 s d.1 h)

parse_uint_lem : (s : Text) → s ≢ [] → parse_uint s ≡ parse_digits 0 s
unfolding parse_uint
parse_uint_lem [] h = absurd (h refl)
parse_uint_lem (c ∷ s) h = refl

parse_uint-decimal : (n : ℕ) → n < two64 → parse_uint (decimal n) ≡ value n
parse_uint-decimal n h =
    parse_uint_lem (decimal n) (decimal-nonempty n)
    ∙ parse_digits_lem 0 (decimal n) (decimal-IsDigit n)
        (subst (λ k. k < two64) (sym (number-decimal n)) h)
    ∙ ap value (number-decimal n)

module _ (quote : Text → Text) where
  -- A digit is no sign.
  atoi_unsigned :
      (s t : Text)
      → t ≢ []
      → All IsDigit t
      → atoi_signed quote s t ≡ signed quote s false (parse_uint t)
  unfolding atoi_signed
  atoi_unsigned s [] h d = absurd (h refl)
  atoi_unsigned s (c ∷ t) h d =
      rw (not_byte c b'-' d.0 (omega arith), not_byte c b'+' d.0 (omega arith)) refl
    where
      not_byte : (c b : ℕ) → IsDigit c → b < b'0' → (c == b) ≡ false
      not_byte c b d h = ground arith

  signed-false : (s : Text) (n : ℕ) → n < two63 → signed quote s false (value n) ≡ ok (pos n)
  unfolding signed
  signed-false s n h = rw ((ltb_iff n two63).1 h) refl

  signed-true : (s : Text) (n : ℕ) → n < two63 → signed quote s true (value (suc n)) ≡ ok (negsuc n)
  unfolding signed
  signed-true s n h = rw ((ltb_iff n two63).1 h) refl

  atoi_minus : (s t : Text) → atoi_signed quote s (b'-' ∷ t) ≡ signed quote s true (parse_uint t)
  unfolding atoi_signed
  atoi_minus s t = refl

  -- A printed int64 is read back.
  pub atoi-signed_decimal : (n : ℤ) → InInt64 n → atoi quote (signed_decimal n) ≡ ok n
  unfolding atoi signed_decimal
  atoi-signed_decimal (pos n) h =
      atoi_unsigned (decimal n) (decimal n) (decimal-nonempty n) (decimal-IsDigit n)
      ∙ ap (signed quote (decimal n) false) (parse_uint-decimal n (omega (arith, h.0)))
      ∙ signed-false (decimal n) n h.0
  atoi-signed_decimal (negsuc n) h =
      atoi_minus (b'-' ∷ decimal (suc n)) (decimal (suc n))
      ∙ ap (signed quote (b'-' ∷ decimal (suc n)) true)
          (parse_uint-decimal (suc n) (omega (arith, h.1)))
      ∙ signed-true (b'-' ∷ decimal (suc n)) n (omega (arith, h.1))
