-- ===== src/Metrics/Tests.antt =====
-- The label of a rule, and that of the smallest int64.
use zip_extraction.Common.{◌≡◌, ◌-◌, refl, [], ◌∷◌}
use zip_extraction.Common.Int.{negsuc, two63}
use zip_extraction.Metrics.{itoa}

-- The smallest int64 has a sign and no digits.
smallest : itoa (negsuc (two63 - 1)) ≡ b'-' ∷ []
unfolding itoa
smallest = refl
