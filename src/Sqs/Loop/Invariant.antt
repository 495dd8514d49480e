-- ===== src/Sqs/Loop/Invariant.antt =====
-- What holds of the receive loop at all times.
use mathlib.Core.Path.{subst}
use mathlib.Core.List.{append-nil}
use zip_extraction.Common.{
  ℕ, ◌+◌, ◌-◌, ◌≤◌, ◌<◌, Bool, true, false, ◌≡◌, ◌∙◌, sym, ap, refl, List, [], ◌∷◌, ◌++◌, length,
  length-append, appends, arith, if◌then◌else◌, ◌||◌,
}
use zip_extraction.Extraction.Errors.{is_some, is_canceled, is_deadline_exceeded}
use zip_extraction.Sqs.{SqsMessage}
use zip_extraction.Sqs.Loop.{
  complete, deadline_hit, LoopPc, head, receiving, backing_off, handing, draining, returned, Loop,
  new_loop, after_receive_error, hand_over, give_back, MainStep, stop, receive, receive_some,
  receive_error, back_off_stop, back_off_end, hand, abandon, batch_done, drained, drain_deadline,
  OtherStep, cancel, worker_released, worker_done, Runs, here, main, other,
}

-- the messages of the batch that have no worker yet
abbrev pub pending : LoopPc → List SqsMessage
pending (handing batch) = batch
pending _ = []

-- Messages are abandoned only when the loop is left; a complete drain leaves no worker.
abbrev pub Left : LoopPc → List SqsMessage → ℕ → Type 0
Left draining xs n = Unit
Left (returned complete) xs n = n ≡ 0
Left (returned deadline_hit) xs n = Unit
Left _ xs n = xs ≡ []

pub record Inv (max_in_flight : ℕ) (s : Loop) : Type 0 where
  pub bounded : s.slots ≤ max_in_flight
  pub in_use : s.slots ≡ length s.working
  pub counted : s.group ≡ length s.working + s.leaving
  pub kept : s.received ≡ s.dispatched ++ (pending s.pc ++ s.abandoned)
  pub few : length (pending s.pc) + length s.abandoned ≤ 10
  pub willing : s.cancelled ≡ false → s.abandoned ≡ []
  pub left : Left s.pc s.abandoned s.group

pub new_loop-Inv : (max : ℕ) → Inv max new_loop
unfolding new_loop
new_loop-Inv max = record {
  bounded = omega arith;
  in_use = refl;
  counted = omega arith;
  kept = refl;
  few = omega arith;
  willing = λ c. refl;
  left = refl;
}

-- A step that only moves the loop from one place to another, with nothing pending before or after.
moved :
    {max : ℕ} (s : Loop) (pc : LoopPc)
    → Inv max s
    → pending s.pc ≡ []
    → pending pc ≡ []
    → Left pc s.abandoned s.group
    → Inv max (record s { pc = pc })
moved s pc i none_before none_after l = record {
  bounded = i.bounded;
  in_use = i.in_use;
  counted = i.counted;
  kept =
      subst (λ p. s.received ≡ s.dispatched ++ (p ++ s.abandoned)) (none_before ∙ sym none_after)
        i.kept;
  few = subst (λ p. length p + length s.abandoned ≤ 10) (none_before ∙ sym none_after) i.few;
  willing = i.willing;
  left = l;
}

pub Left-at :
    {max : ℕ} (s : Loop) (pc : LoopPc) → Inv max s → s.pc ≡ pc → Left pc s.abandoned s.group
Left-at s pc i e = subst (λ p. Left p s.abandoned s.group) e i.left

received_at :
    {max : ℕ} (s : Loop) (pc : LoopPc)
    → Inv max s
    → s.pc ≡ pc
    → (s.received ≡ s.dispatched ++ (pending pc ++ s.abandoned))
      × (length (pending pc) + length s.abandoned ≤ 10)
received_at s pc i e = (
  subst (λ p. s.received ≡ s.dispatched ++ (pending p ++ s.abandoned)) e i.kept,
  subst (λ p. length (pending p) + length s.abandoned ≤ 10) e i.few,
)

hand_over-Inv :
    {max : ℕ} (s : Loop) (m : SqsMessage) (batch : List SqsMessage)
    → Inv max s
    → s.pc ≡ handing (m ∷ batch)
    → s.slots < max
    → Inv max (hand_over m batch s)
unfolding hand_over
hand_over-Inv s m batch i e free =
    let (kept, few) = received_at s (handing (m ∷ batch)) i e in
    let grown = length-append s.working (m ∷ []) in
    record {
      bounded = omega (arith, free);
      in_use = omega (arith, grown, i.in_use);
      counted = omega (arith, grown, i.counted);
      kept = rw kept (simp appends);
      few = omega (arith, few);
      willing = i.willing;
      left = Left-at s (handing (m ∷ batch)) i e;
    }

after_receive_error-Inv :
    {max : ℕ} (s : Loop) (b : Bool)
    → Inv max s
    → s.pc ≡ receiving
    → Inv max (record s { pc = if b then draining else backing_off })
after_receive_error-Inv s true i e = moved s draining i (ap pending e) refl tt
after_receive_error-Inv s false i e =
    moved s backing_off i (ap pending e) refl (Left-at s receiving i e)

MainStep-Inv : {max : ℕ} {s t : Loop} → Inv max s → MainStep max s t → Inv max t
unfolding after_receive_error
MainStep-Inv {s} i (stop e c) = moved s draining i (ap pending e) refl tt
MainStep-Inv {s} i (receive e c) = moved s receiving i (ap pending e) refl (Left-at s head i e)
MainStep-Inv {s} i (receive_some batch e h) =
    let none_left = Left-at s receiving i e in
    let (kept, few) = received_at s receiving i e in
    record {
      bounded = i.bounded;
      in_use = i.in_use;
      counted = i.counted;
      kept =
          rw (none_left, append-nil)
            (ap (λ xs. xs ++ batch)
              (kept ∙ ap (λ xs. s.dispatched ++ xs) none_left ∙ append-nil s.dispatched));
      few = rw none_left (omega (arith, h));
      willing = i.willing;
      left = none_left;
    }
MainStep-Inv {s} i (receive_error x e) =
    after_receive_error-Inv s (is_some (is_canceled x) || is_some (is_deadline_exceeded x)) i e
MainStep-Inv {s} i (back_off_stop e c) = moved s draining i (ap pending e) refl tt
MainStep-Inv {s} i (back_off_end e) = moved s head i (ap pending e) refl (Left-at s backing_off i e)
MainStep-Inv {s} i (hand m batch e free) = hand_over-Inv s m batch i e free
MainStep-Inv {s} i (abandon m batch e c) =
    let (kept, few) = received_at s (handing (m ∷ batch)) i e in
    let none_left = Left-at s (handing (m ∷ batch)) i e in
    record {
      bounded = i.bounded;
      in_use = i.in_use;
      counted = i.counted;
      kept =
          kept
          ∙ ap (λ xs. s.dispatched ++ ((m ∷ batch) ++ xs)) none_left
          ∙ ap (λ xs. s.dispatched ++ xs) (append-nil (m ∷ batch));
      few = omega (arith, few);
      willing = λ going. let b = sym c ∙ going in cc;
      left = tt;
    }
MainStep-Inv {s} i (batch_done e) = moved s head i (ap pending e) refl (Left-at s (handing []) i e)
MainStep-Inv {s} i (drained e none_left) =
    moved s (returned complete) i (ap pending e) refl none_left
MainStep-Inv {s} i (drain_deadline e) = moved s (returned deadline_hit) i (ap pending e) refl tt

Left-le : (pc : LoopPc) (xs : List SqsMessage) (n n' : ℕ) → n' ≤ n → Left pc xs n → Left pc xs n'
Left-le head xs n n' h l = l
Left-le receiving xs n n' h l = l
Left-le backing_off xs n n' h l = l
Left-le (handing batch) xs n n' h l = l
Left-le draining xs n n' h l = tt
Left-le (returned complete) xs n n' h l = omega (arith, h, l)
Left-le (returned deadline_hit) xs n n' h l = tt

OtherStep-Inv : {max : ℕ} {s t : Loop} → Inv max s → OtherStep s t → Inv max t
unfolding give_back
OtherStep-Inv i cancel = record {
  bounded = i.bounded;
  in_use = i.in_use;
  counted = i.counted;
  kept = i.kept;
  few = i.few;
  willing = λ c. cc;
  left = i.left;
}
OtherStep-Inv {s} i (worker_released m xs ys e) =
    let before = ap length e ∙ length-append xs (m ∷ ys) in
    let after = length-append xs ys in
    record {
      bounded = omega (arith, i.bounded);
      in_use = omega (arith, before, after, i.in_use);
      counted = omega (arith, before, after, i.counted);
      kept = i.kept;
      few = i.few;
      willing = i.willing;
      left = i.left;
    }
OtherStep-Inv {s} i (worker_done n e) = record {
  bounded = i.bounded;
  in_use = i.in_use;
  counted = omega (arith, i.counted, e);
  kept = i.kept;
  few = i.few;
  willing = i.willing;
  left = Left-le s.pc s.abandoned s.group (s.group - 1) (omega arith) i.left;
}

pub Runs-Inv : {max : ℕ} {s : Loop} {n : ℕ} {t : Loop} → Inv max s → Runs max s n t → Inv max t
Runs-Inv i here = i
Runs-Inv i (main r mv) = MainStep-Inv (Runs-Inv i r) mv
Runs-Inv i (other r mv) = OtherStep-Inv (Runs-Inv i r) mv
