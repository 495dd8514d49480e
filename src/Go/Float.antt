-- ===== src/Go/Float.antt =====
-- Go's `float64`, by its 64 bits. The operations of the hardware are an argument of what uses them.
use zip_extraction.Common.{ℕ, Bool}
use zip_extraction.Common.Int.{ℤ}
use zip_extraction.Go.Strings.{Text}

abbrev pub Float64 : Type 0
Float64 = ℕ

pub record FloatOps : Type 0 where
  pub of_int : ℤ → Float64
  pub to_int : Float64 → ℤ
  pub add : Float64 → Float64 → Float64
  pub sub : Float64 → Float64 → Float64
  pub mul : Float64 → Float64 → Float64
  pub div : Float64 → Float64 → Float64
  pub pow : Float64 → Float64 → Float64
  -- a < b
  pub lt : Float64 → Float64 → Bool
  -- the verbs %v and %.2f
  pub print : Float64 → Text
  pub print2 : Float64 → Text
