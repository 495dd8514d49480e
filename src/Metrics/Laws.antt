-- ===== src/Metrics/Laws.antt =====
-- The label is the number, and has room in the buffer.
use zip_extraction.Common.{
  ℕ, zero, suc, ◌+◌, ◌/◌, ◌%◌, ◌≤◌, ◌<◌, ◌≡◌, ◌∙◌, sym, ap, refl, false, some, [], ◌∷◌, arith, ◌==◌,
  Bool-cases, inl, inr, length, if_intro, if◌then◌else◌,
}
use zip_extraction.Common.Int.{ℤ, pos, negsuc, two63, int64_small, pos_part, neg_part}
use zip_extraction.Go.Strings.{Text}
use zip_extraction.Go.Fmt.{dec_loop, decimal, signed_decimal, scan_int64}
use zip_extraction.Go.Fmt.Laws.{scan_int64-signed_decimal}
use zip_extraction.Metrics.{itoa_loop, positive_digits, negate64, itoa}

-- `n` has at most `k` digits.
HasDigits : ℕ → ℕ → Type 0
HasDigits zero n = n ≡ 0
HasDigits (suc k) n = HasDigits k (n / 10)

itoa_loop-length :
    (k rounds n : ℕ) (buf : Text) → HasDigits k n → length (itoa_loop rounds n buf) ≤ k + length buf
unfolding itoa_loop HasDigits
itoa_loop-length k zero n buf h = omega arith
itoa_loop-length zero (suc rounds) n buf h = rw h (omega arith)
itoa_loop-length (suc k) (suc rounds) n buf h = elim (Bool-cases (n == 0)) [
  | inl z ↦ rw z (omega arith)
  | inr z ↦
      let fits = itoa_loop-length k rounds (n / 10) ((b'0' + n % 10) ∷ buf) h in
      rw z (omega (arith, fits))
]

itoa_loop-dec_loop : (rounds n : ℕ) (buf : Text) → itoa_loop rounds n buf ≡ dec_loop rounds n buf
unfolding itoa_loop dec_loop
itoa_loop-dec_loop zero n buf = refl
itoa_loop-dec_loop (suc rounds) n buf =
    rw (itoa_loop-dec_loop rounds (n / 10) ((b'0' + n % 10) ∷ buf)) refl

nineteen : (n : ℕ) → n ≤ two63 → HasDigits 19 n
unfolding HasDigits
nineteen n h = omega (arith, h)

positive_digits-decimal : (n : ℕ) → positive_digits (pos (suc n)) ≡ decimal (suc n)
unfolding positive_digits decimal
positive_digits-decimal n =
    itoa_loop-dec_loop (suc n) (suc n) []
    ∙ sym (ap (λ b. if b then b'0' ∷ [] else dec_loop (suc n) (suc n) []) (not_zero n))
  where
    not_zero : (n : ℕ) → (suc n == 0) ≡ false
    not_zero n = ground arith

negate64_small : (n : ℕ) → suc n < two63 → negate64 (negsuc n) ≡ pos (suc n)
unfolding negate64
negate64_small n h = int64_small (suc n) h

itoa-decimal : (n : ℕ) → itoa (pos n) ≡ decimal n
unfolding itoa positive_digits decimal
itoa-decimal n = ap (λ s. if n == 0 then b'0' ∷ [] else s) (itoa_loop-dec_loop n n [])

itoa-signed_decimal : (n : ℤ) → neg_part n < two63 → itoa n ≡ signed_decimal n
unfolding itoa signed_decimal
itoa-signed_decimal (pos n) h = itoa-decimal n
itoa-signed_decimal (negsuc n) h =
    ap (λ s. b'-' ∷ s) (ap positive_digits (negate64_small n h) ∙ positive_digits-decimal n)

digits_fit : (n : ℕ) → n < two63 → length (positive_digits (pos n)) ≤ 19
unfolding positive_digits
digits_fit n h = itoa_loop-length 19 n n [] (nineteen n (omega (arith, h)))

itoa-length : (n : ℤ) → pos_part n < two63 → neg_part n < two63 → length (itoa n) ≤ 20
unfolding itoa
itoa-length (pos n) h k =
    if_intro {A = Text} (λ s. length s ≤ 20) (n == 0) (omega arith) (omega (arith, digits_fit n h))
itoa-length (negsuc n) h k = rw (negate64_small n k) (omega (arith, digits_fit (suc n) k))

-- The label of a number other than the smallest int64 is read back as the number, and has room in the
-- buffer of 20 bytes.
pub itoa-scan :
    (n : ℤ)
    → pos_part n < two63
    → neg_part n < two63
    → (scan_int64 (itoa n) ≡ some n) × (length (itoa n) ≤ 20)
itoa-scan n h k = (
  ap scan_int64 (itoa-signed_decimal n k) ∙ scan_int64-signed_decimal n (h, omega (arith, k)),
  itoa-length n h k,
)
