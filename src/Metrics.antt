-- ===== src/Metrics.antt =====
-- services/zip-extraction/internal/metrics/metrics.go: the label of a rule. The other functions call
-- Prometheus.
pub mod Laws
pub mod Collectors
mod Tests
use zip_extraction.Common.{
  ℕ, zero, suc, ◌+◌, ◌/◌, ◌%◌, Bool, true, false, List, [], ◌∷◌, ◌==◌, if◌then◌else◌,
}
use zip_extraction.Common.Int.{ℤ, pos, negsuc, pos_part, int64}
use zip_extraction.Go.Strings.{Text}

-- -n on an int64: the smallest one is its own negation
negate64 : ℤ → ℤ
unfolding int64
negate64 (pos zero) = pos 0
negate64 (pos (suc n)) = negsuc n
negate64 (negsuc n) = int64 (suc n)

-- The loop runs while n > 0; `rounds` bounds it, and n rounds are enough.
itoa_loop : ℕ → ℕ → Text → Text
itoa_loop zero n buf = buf
itoa_loop (suc rounds) n buf =
    let rest = itoa_loop rounds (n / 10) ((b'0' + n % 10) ∷ buf) in if n == 0 then buf else rest

positive_digits : ℤ → Text
unfolding itoa_loop
positive_digits n = itoa_loop (pos_part n) (pos_part n) []

unfoldable pub itoa : ℤ → Text
unfolding negate64 positive_digits
itoa (pos n) = if n == 0 then b'0' ∷ [] else positive_digits (pos n)
itoa (negsuc n) = b'-' ∷ positive_digits (negate64 (negsuc n))
