-- ===== src/Sqs/Loop/Drain.antt =====
-- The end of the receive loop after a shutdown.
use zip_extraction.Common.{
  ℕ, ◌+◌, ◌≤◌, ◌<◌, Bool, true, false, ◌≡◌, ◌∙◌, sym, ap, refl, ◌⊎◌, inl, inr, [], ◌∷◌, length,
  arith, if◌then◌else◌, ◌||◌,
}
use zip_extraction.Extraction.Errors.{is_some, is_canceled, is_deadline_exceeded}
use zip_extraction.Sqs.Loop.Invariant.{pending}
use zip_extraction.Sqs.Loop.Slots.{Runs-dispatched}
use zip_extraction.Sqs.Loop.{
  Ending, LoopPc, head, receiving, backing_off, handing, draining, returned, Loop, new_loop,
  after_receive_error, hand_over, give_back, MainStep, stop, receive, receive_some, receive_error,
  back_off_stop, back_off_end, hand, abandon, batch_done, drained, drain_deadline, OtherStep,
  cancel, worker_released, worker_done, Runs, here, main, other,
}

-- a bound on the steps that are left to Run after the shutdown
rank : LoopPc → ℕ
rank head = 2
rank receiving = 14
rank backing_off = 3
rank (handing batch) = length batch + 3
rank draining = 1
rank (returned e) = 0

rank_at : (s : Loop) (pc : LoopPc) → s.pc ≡ pc → rank s.pc ≡ rank pc
rank_at s pc e = ap rank e

rank_error : (b : Bool) → rank (if b then draining else backing_off) < 14
unfolding rank
rank_error true = omega arith
rank_error false = omega arith

rank-MainStep :
    {max : ℕ} {s t : Loop} → s.cancelled ≡ true → MainStep max s t → rank t.pc < rank s.pc
unfolding rank after_receive_error hand_over
rank-MainStep {s} c (stop e d) = omega (arith, rank_at s head e)
rank-MainStep c (receive e d) = let b = sym c ∙ d in cc
rank-MainStep {s} c (receive_some batch e h) = omega (arith, rank_at s receiving e, h)
rank-MainStep {s} c (receive_error x e) = omega (
  arith,
  rank_at s receiving e,
  rank_error (is_some (is_canceled x) || is_some (is_deadline_exceeded x)),
)
rank-MainStep {s} c (back_off_stop e d) = omega (arith, rank_at s backing_off e)
rank-MainStep {s} c (back_off_end e) = omega (arith, rank_at s backing_off e)
rank-MainStep {s} c (hand m batch e h) = omega (arith, rank_at s (handing (m ∷ batch)) e)
rank-MainStep {s} c (abandon m batch e d) = omega (arith, rank_at s (handing (m ∷ batch)) e)
rank-MainStep {s} c (batch_done e) = omega (arith, rank_at s (handing []) e)
rank-MainStep {s} c (drained e d) = omega (arith, rank_at s draining e)
rank-MainStep {s} c (drain_deadline e) = omega (arith, rank_at s draining e)

cancelled-MainStep : {max : ℕ} {s t : Loop} → MainStep max s t → t.cancelled ≡ s.cancelled
unfolding hand_over
cancelled-MainStep (stop e d) = refl
cancelled-MainStep (receive e d) = refl
cancelled-MainStep (receive_some batch e h) = refl
cancelled-MainStep (receive_error x e) = refl
cancelled-MainStep (back_off_stop e d) = refl
cancelled-MainStep (back_off_end e) = refl
cancelled-MainStep (hand m batch e h) = refl
cancelled-MainStep (abandon m batch e d) = refl
cancelled-MainStep (batch_done e) = refl
cancelled-MainStep (drained e d) = refl
cancelled-MainStep (drain_deadline e) = refl

OtherStep-kept :
    {s t : Loop} → s.cancelled ≡ true → OtherStep s t → (t.cancelled ≡ true) × (t.pc ≡ s.pc)
unfolding give_back
OtherStep-kept c cancel = (refl, refl)
OtherStep-kept c (worker_released m xs ys e) = (c, refl)
OtherStep-kept c (worker_done n e) = (c, refl)

rank-Runs :
    {max : ℕ} {s : Loop} {n : ℕ} {t : Loop}
    → s.cancelled ≡ true
    → Runs max s n t
    → (t.cancelled ≡ true) × (n + rank t.pc ≤ rank s.pc)
rank-Runs c here = (c, omega arith)
rank-Runs c (main r mv) =
    let (d, h) = rank-Runs c r in (cancelled-MainStep mv ∙ d, omega (arith, h, rank-MainStep d mv))
rank-Runs c (other r mv) =
    let (d, h) = rank-Runs c r in
    let (d', e) = OtherStep-kept d mv in (d', omega (arith, h, ap rank e))

rank_bound : (pc : LoopPc) → length (pending pc) ≤ 10 → rank pc ≤ 14
unfolding rank
rank_bound head h = omega arith
rank_bound receiving h = omega arith
rank_bound backing_off h = omega arith
rank_bound (handing batch) h = omega (arith, h)
rank_bound draining h = omega arith
rank_bound (returned e) h = omega arith

-- Run has returned, or can make a step.
abbrev pub GoesOn : ℕ → Loop → Type 0
GoesOn max t = ((e : Ending) × (t.pc ≡ returned e)) ⊎ ((u : Loop) × MainStep max t u)

goes_on : (max : ℕ) (t : Loop) (pc : LoopPc) → t.pc ≡ pc → t.cancelled ≡ true → GoesOn max t
goes_on max t head e c = inr (_, stop e c)
goes_on max t receiving e c = inr (_, receive_some [] e (omega arith))
goes_on max t backing_off e c = inr (_, back_off_stop e c)
goes_on max t (handing []) e c = inr (_, batch_done e)
goes_on max t (handing (m ∷ batch)) e c = inr (_, abandon m batch e c)
goes_on max t draining e c = inr (_, drain_deadline e)
goes_on max t (returned x) e c = inl (x, e)

-- After a shutdown Run returns: from any state that it has come to, it makes at most fourteen steps
-- more, however the workers go on, and until it has returned it can make one.
pub Runs-returns :
    {k n : ℕ} {s t : Loop} (max : ℕ)
    → Runs max new_loop k s
    → s.cancelled ≡ true
    → Runs max s n t
    → (n ≤ 14) × GoesOn max t
Runs-returns {s} {t} max before c r =
    let (d, h) = rank-Runs c r in
    let few = (Runs-dispatched max before).1 in
    (omega (arith, h, rank_bound s.pc (omega (arith, few))), goes_on max t t.pc refl d)
