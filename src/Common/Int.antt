-- ===== src/Common/Int.antt =====
-- Go's `int64` and `int` (64 bits on the service's platforms): integers with two's-complement
-- wrap-around written out. `int64 w` is the conversion from a `uint64`.
use Prim.Native.Nat.{ℕ, suc, ◌+◌, ◌-◌, ◌*◌, ◌%◌, ◌^◌, ◌≤◌, ◌<◌}
use mathlib.Core.Path.{◌≡◌}
use mathlib.Core.Bool.{Bool}
use native.Mathlib.Omega.{arith}
use zip_extraction.Common.Tests.{ltb, leb, if◌then◌else◌}

-- `negsuc n` is -(n + 1).
pub data ℤ : Type 0 where
  pos : ℕ → ℤ
  negsuc : ℕ → ℤ

abbrev pub pos_part : ℤ → ℕ
pos_part (pos n) = n
pos_part (negsuc n) = 0

abbrev pub neg_part : ℤ → ℕ
neg_part (pos n) = 0
neg_part (negsuc n) = suc n

abbrev pub sub_ℕ : ℕ → ℕ → ℤ
sub_ℕ a b = if leb b a then pos (a - b) else negsuc (b - a - 1)

infixl 65 ◌+ℤ◌
infix 50 ◌≤ℤ◌ ◌<ℤ◌
unfoldable pub ◌+ℤ◌ : ℤ → ℤ → ℤ
a +ℤ b = sub_ℕ (pos_part a + pos_part b) (neg_part a + neg_part b)

abbrev pub ◌≤ℤ◌ : ℤ → ℤ → Type 0
a ≤ℤ b = pos_part a + neg_part b ≤ pos_part b + neg_part a

abbrev pub ◌<ℤ◌ : ℤ → ℤ → Type 0
a <ℤ b = pos_part a + neg_part b < pos_part b + neg_part a

-- `a < b` and `a > b` of the source, as tests
abbrev pub ltb_ℤ : ℤ → ℤ → Bool
ltb_ℤ a b = ltb (pos_part a + neg_part b) (pos_part b + neg_part a)

abbrev pub gtb_ℤ : ℤ → ℤ → Bool
gtb_ℤ a b = ltb_ℤ b a

abbrev pub two63 : ℕ
two63 = 2 ^ 63

abbrev pub two64 : ℕ
two64 = 2 ^ 64

-- int64(w) for a uint64 `w`
unfoldable pub int64 : ℕ → ℤ
int64 w = if ltb w two63 then pos w else negsuc (two64 - w - 1)

-- the residue of an integer in the range of `int64`
unfoldable pub wrap64 : ℤ → ℤ
unfolding int64
wrap64 (pos n) = int64 (n % two64)
wrap64 (negsuc n) = int64 (two64 - 1 - n % two64)

unfoldable pub add64 : ℤ → ℤ → ℤ
unfolding wrap64 ◌+ℤ◌
add64 a b = wrap64 (a +ℤ b)

-- the low 32 bits
word32 : ℤ → ℕ
word32 (pos n) = n % 2 ^ 32
word32 (negsuc n) = 2 ^ 32 - 1 - n % 2 ^ 32

-- the conversion to an int32
unfoldable pub int32 : ℤ → ℤ
unfolding word32
int32 a = if ltb (word32 a) (2 ^ 31) then pos (word32 a) else negsuc (2 ^ 32 - word32 a - 1)

-- the product with a positive constant, as an int64
unfoldable pub times64 : ℤ → ℕ → ℤ
unfolding wrap64
times64 (pos n) k = wrap64 (pos (n * k))
times64 (negsuc n) k = wrap64 (negsuc (suc n * k - 1))

abbrev pub InInt64 : ℤ → Type 0
InInt64 a = (pos_part a < two63) × (neg_part a ≤ two63)

pub int64_small : (w : ℕ) → w < two63 → int64 w ≡ pos w
unfolding int64
int64_small w h = ground arith
