-- ===== src/Sqs/Loop/Slots.antt =====
-- The slots of the receive loop, and the messages that it hands to workers.
use zip_extraction.Common.{ℕ, ◌+◌, ◌≤◌, ◌≡◌, refl, false, List, [], ◌∷◌, ◌++◌, length, arith}
use zip_extraction.Sqs.{SqsMessage}
use zip_extraction.Sqs.Loop.{complete, returned, Loop, new_loop, Runs}
use zip_extraction.Sqs.Loop.Invariant.{pending, Left-at, new_loop-Inv, Runs-Inv}

Runs-complete :
    {n : ℕ} {s : Loop} (max : ℕ)
    → Runs max new_loop n s
    → s.pc ≡ returned complete
    → (s.working ≡ []) × (s.leaving ≡ 0)
Runs-complete {s} max r e =
    let i = Runs-Inv (new_loop-Inv max) r in
    let none_left = Left-at s (returned complete) i e in
    (
      no_elements s.working (omega (arith, none_left, i.counted)),
      omega (arith, none_left, i.counted),
    )
  where
    no_elements : (xs : List SqsMessage) → length xs ≡ 0 → xs ≡ []
    no_elements [] h = refl
    no_elements (x ∷ xs) h = absurd (omega (arith, h))

-- Whatever the order of the steps of Run and of its workers: no more messages are worked on at the same
-- time than there are slots, a worker holds just one slot, and where Run returns because its workers
-- have finished, none of them is left, neither at work nor about to end.
pub Runs-slots :
    {n : ℕ} {s : Loop} (max : ℕ)
    → Runs max new_loop n s
    → (length s.working ≤ max)
      × ((s.slots ≡ length s.working)
          × (s.pc ≡ returned complete → (s.working ≡ []) × (s.leaving ≡ 0)))
Runs-slots max r =
    let i = Runs-Inv (new_loop-Inv max) r in
    (omega (arith, i.bounded, i.in_use), (i.in_use, Runs-complete max r))

-- Each message that is received gets one worker, in the order of the messages, but for at most ten:
-- those of the batch that wait for a slot, and those that a shutdown makes the loop abandon. None is
-- abandoned before the shutdown.
pub Runs-dispatched :
    {n : ℕ} {s : Loop} (max : ℕ)
    → Runs max new_loop n s
    → (s.received ≡ s.dispatched ++ (pending s.pc ++ s.abandoned))
      × (length (pending s.pc) + length s.abandoned ≤ 10)
      × (s.cancelled ≡ false → s.abandoned ≡ [])
Runs-dispatched max r = let i = Runs-Inv (new_loop-Inv max) r in (i.kept, i.few, i.willing)
