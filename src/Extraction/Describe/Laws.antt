-- ===== src/Extraction/Describe/Laws.antt =====
-- Which failures have a description.
use zip_extraction.Common.{
  ℕ, zero, suc, ◌≤◌, ◌≡◌, refl, true, false, [], ◌∷◌, ◌++◌, arith, is_empty, Bool-cases, inl, inr,
}
use zip_extraction.Go.Strings.{Text, text, str_eq, has_prefix, trim_prefix}
use zip_extraction.Go.Fmt.{decimal}
use zip_extraction.Extraction.Describe.{rule_reason, describe_reason, describe_failure}

unfoldable pub opened : Unit {0}
unfolding rule_reason describe_reason text str_eq has_prefix trim_prefix decimal
opened = tt

describe_rule :
    (rule : ℕ) → 1 ≤ rule → rule ≤ 12 → is_empty (describe_reason (rule_reason rule)) ≡ false
unfolding opened
describe_rule zero h k = absurd (omega arith)
describe_rule (suc zero) h k = refl
describe_rule (suc (suc zero)) h k = refl
describe_rule (suc (suc (suc zero))) h k = refl
describe_rule (suc (suc (suc (suc zero)))) h k = refl
describe_rule (suc (suc (suc (suc (suc zero))))) h k = refl
describe_rule (suc (suc (suc (suc (suc (suc zero)))))) h k = refl
describe_rule (suc (suc (suc (suc (suc (suc (suc zero))))))) h k = refl
describe_rule (suc (suc (suc (suc (suc (suc (suc (suc zero)))))))) h k = refl
describe_rule (suc (suc (suc (suc (suc (suc (suc (suc (suc zero))))))))) h k = refl
describe_rule (suc (suc (suc (suc (suc (suc (suc (suc (suc (suc zero)))))))))) h k = refl
describe_rule (suc (suc (suc (suc (suc (suc (suc (suc (suc (suc (suc zero))))))))))) h k = refl
describe_rule (suc (suc (suc (suc (suc (suc (suc (suc (suc (suc (suc (suc zero)))))))))))) h k =
    refl
describe_rule (suc (suc (suc (suc (suc (suc (suc (suc (suc (suc (suc (suc (suc n))))))))))))) h k =
    absurd (omega arith)

append-nonempty : (s t : Text) → is_empty s ≡ false → is_empty (s ++ t) ≡ false
append-nonempty [] t h = cc
append-nonempty (x ∷ s) t h = refl

-- A failure whose reason has a description is described, with any detail.
describe_known :
    (reason detail : Text)
    → is_empty (describe_reason reason) ≡ false
    → is_empty (describe_failure reason detail) ≡ false
unfolding describe_failure
describe_known reason detail h = elim (Bool-cases (is_empty detail)) [
  | inl e ↦ rw (h, e) h
  | inr e ↦ rw (h, e) (append-nonempty (describe_reason reason) (text " — " ++ detail) h)
]

-- A rejection by one of the rules 1 to 12 has a description, whatever the detail is.
pub describe_failure-rule :
    (rule : ℕ) (detail : Text)
    → 1 ≤ rule
    → rule ≤ 12
    → is_empty (describe_failure (rule_reason rule) detail) ≡ false
describe_failure-rule rule detail h k =
    describe_known (rule_reason rule) detail (describe_rule rule h k)

-- A reason that has no description leaves the detail alone, so that without a detail nothing is said
-- of the failure.
pub describe_failure-unknown :
    (reason detail : Text)
    → is_empty (describe_reason reason) ≡ true
    → describe_failure reason detail ≡ detail
unfolding describe_failure
describe_failure-unknown reason [] h = rw h refl
describe_failure-unknown reason (x ∷ detail) h = rw h refl
