-- ===== src/Go/Fmt/Laws.antt =====
-- Printed numbers are digits only, and are read back.
use zip_extraction.Common.{
  ℕ, zero, suc, ◌+◌, ◌-◌, ◌/◌, ◌%◌, ◌≤◌, ◌<◌, leb_iff, ltb_iff, true, false, Bool, ◌≡◌, ◌≢◌, ◌∙◌,
  sym, ap, refl, [], ◌∷◌, arith, All, ◌==◌, length, inl, inr, Bool-cases, some,
}
use zip_extraction.Common.Int.{ℤ, pos, negsuc, two63, InInt64}
use zip_extraction.Go.Strings.{Text}
use zip_extraction.Go.Strings.Laws.{NoByte}
use zip_extraction.Go.Fmt.{
  dec_loop, decimal, signed_decimal, zeros, decimal4, number, digits, in_int64, scan_digits,
  scan_sign, skip_spaces, scan_int64,
}

number-dec_loop : (f n : ℕ) (acc : Text) → n ≤ f → number 0 (dec_loop f n acc) ≡ number n acc
unfolding number dec_loop
number-dec_loop zero n acc h = ap (λ v. number v acc) (omega arith)
number-dec_loop (suc f) n acc h = elim (Bool-cases (n == 0)) [
  | inl e ↦ let z : n ≡ 0 = ground arith in rw z refl
  | inr e ↦ rw e (
      number-dec_loop f (n / 10) ((b'0' + n % 10) ∷ acc) (ground arith)
      ∙ ap (λ v. number v acc) (omega arith))
]

pub number-decimal : (n : ℕ) → number 0 (decimal n) ≡ n
unfolding number decimal
number-decimal n = elim (Bool-cases (n == 0)) [
  | inl e ↦ rw e (ground arith)
  | inr e ↦ rw e (number-dec_loop n n [] (omega arith))
]

number-zeros : (k : ℕ) (s : Text) → number 0 (zeros k s) ≡ number 0 s
unfolding number zeros
number-zeros zero s = refl
number-zeros (suc k) s = number-zeros k s

number-decimal4 : (n : ℕ) → number 0 (decimal4 n) ≡ n
unfolding decimal4
number-decimal4 n = number-zeros (4 - length (decimal n)) (decimal n) ∙ number-decimal n

pub decimal4-injective : (m n : ℕ) → decimal4 m ≡ decimal4 n → m ≡ n
decimal4-injective m n e = sym (number-decimal4 m) ∙ ap (number 0) e ∙ number-decimal4 n

abbrev pub IsDigit : ℕ → Type 0
IsDigit c = (b'0' ≤ c) × (c ≤ b'9')

dec_loop-IsDigit : (f n : ℕ) (acc : Text) → All IsDigit acc → All IsDigit (dec_loop f n acc)
unfolding dec_loop
dec_loop-IsDigit zero n acc h = h
dec_loop-IsDigit (suc f) n acc h = elim (Bool-cases (n == 0)) [
  | inl e ↦ rw e h
  | inr e ↦ rw e (dec_loop-IsDigit f (n / 10) ((b'0' + n % 10) ∷ acc) (omega arith, h))
]

pub decimal-IsDigit : (n : ℕ) → All IsDigit (decimal n)
unfolding decimal
decimal-IsDigit n = elim (Bool-cases (n == 0)) [
  | inl e ↦ rw e (omega arith, tt)
  | inr e ↦ rw e (dec_loop-IsDigit n n [] tt)
]

zeros-IsDigit : (k : ℕ) (s : Text) → All IsDigit s → All IsDigit (zeros k s)
unfolding zeros
zeros-IsDigit zero s h = h
zeros-IsDigit (suc k) s h = (omega arith, zeros-IsDigit k s h)

pub decimal4-IsDigit : (n : ℕ) → All IsDigit (decimal4 n)
unfolding decimal4
decimal4-IsDigit n = zeros-IsDigit (4 - length (decimal n)) (decimal n) (decimal-IsDigit n)

pub NoByte-of_IsDigit : (b : ℕ) (s : Text) → ¬ IsDigit b → All IsDigit s → NoByte b s
NoByte-of_IsDigit b [] h k = tt
NoByte-of_IsDigit b (c ∷ s) h k = (λ e. h (rw (← e) k.0), NoByte-of_IsDigit b s h k.1)

decimal_runs :
    (decimal 1203 ≡ b'1' ∷ b'2' ∷ b'0' ∷ b'3' ∷ []) × (decimal4 7 ≡ b'0' ∷ b'0' ∷ b'0' ∷ b'7' ∷ [])
unfolding decimal decimal4
decimal_runs = (refl, refl)

digits-All : (s : Text) → All IsDigit s → digits s ≡ s
unfolding digits
digits-All [] h = refl
digits-All (c ∷ s) h =
    rw ((leb_iff b'0' c).1 h.0.0, (leb_iff c b'9').1 h.0.1, digits-All s h.1) refl

pub decimal-nonempty : (n : ℕ) → decimal n ≢ []
unfolding decimal number
decimal-nonempty n e =
    let z : n ≡ 0 = sym (number-decimal n) ∙ ap (number 0) e in
    absurd (zero_case (ap decimal (sym z) ∙ e))
  where
    zero_case : decimal 0 ≢ []
    zero_case e = ground arith

scan_digits_lem :
    (negative : Bool) (s : Text) → s ≢ [] → scan_digits negative s ≡ in_int64 negative (number 0 s)
unfolding scan_digits
scan_digits_lem negative [] h = absurd (h refl)
scan_digits_lem negative (c ∷ s) h = refl

-- A digit is no sign and no space.
scan_unsigned : (s : Text) → s ≢ [] → All IsDigit s → scan_int64 s ≡ in_int64 false (number 0 s)
unfolding scan_int64 scan_sign skip_spaces
scan_unsigned [] h d = absurd (h refl)
scan_unsigned (c ∷ s) h d =
    rw
      (
        not_byte c b' ' d.0 (omega arith),
        not_byte c b'-' d.0 (omega arith),
        not_byte c b'+' d.0 (omega arith),
        digits-All (c ∷ s) d,
      )
      (scan_digits_lem false (c ∷ s) h)
  where
    not_byte : (c b : ℕ) → IsDigit c → b < b'0' → (c == b) ≡ false
    not_byte c b d h = ground arith

scan_minus : (s : Text) → scan_int64 (b'-' ∷ s) ≡ scan_digits true (digits s)
unfolding scan_int64 scan_sign skip_spaces
scan_minus s = refl

in_int64-false : (n : ℕ) → n < two63 → in_int64 false n ≡ some (pos n)
unfolding in_int64
in_int64-false n h = rw ((ltb_iff n two63).1 h) refl

in_int64-true : (n : ℕ) → n < two63 → in_int64 true (suc n) ≡ some (negsuc n)
unfolding in_int64
in_int64-true n h = rw ((ltb_iff n two63).1 h) refl

-- A printed int64 is read back.
pub scan_int64-signed_decimal : (n : ℤ) → InInt64 n → scan_int64 (signed_decimal n) ≡ some n
unfolding signed_decimal
scan_int64-signed_decimal (pos n) h =
    scan_unsigned (decimal n) (decimal-nonempty n) (decimal-IsDigit n)
    ∙ ap (in_int64 false) (number-decimal n)
    ∙ in_int64-false n h.0
scan_int64-signed_decimal (negsuc n) h =
    scan_minus (decimal (suc n))
    ∙ ap (scan_digits true) (digits-All (decimal (suc n)) (decimal-IsDigit (suc n)))
    ∙ scan_digits_lem true (decimal (suc n)) (decimal-nonempty (suc n))
    ∙ ap (in_int64 true) (number-decimal (suc n))
    ∙ in_int64-true n (omega (arith, h.1))
