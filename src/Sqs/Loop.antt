-- ===== src/Sqs/Loop.antt =====
-- Run of adapter.go: the receive loop with its slots and its drain, as steps that interleave with the
-- workers it starts. The workers stand here only for the slots that they hold: what one does is in
-- `Worker`. Log lines are left out; the pause of two seconds and the deadline end at any time.
pub mod Invariant
pub mod Slots
pub mod Drain
use zip_extraction.Common.{
  ℕ, suc, ◌+◌, ◌-◌, ◌≤◌, ◌<◌, Bool, true, false, ◌||◌, ◌≡◌, Option, none, some, List, [], ◌∷◌, ◌++◌,
  length, if◌then◌else◌,
}
use zip_extraction.Extraction.Errors.{Error, is_some, is_canceled, is_deadline_exceeded}
use zip_extraction.Sqs.{SqsMessage}

-- how Run ends: all workers have finished, or the deadline has passed
pub data Ending : Type 0 where
  complete deadline_hit : Ending

-- where the loop stands
pub data LoopPc : Type 0 where
  head : LoopPc  -- before receiveCtx.Err()
  receiving : LoopPc
  backing_off : LoopPc  -- after an error of ReceiveMessage
  handing : (batch : List SqsMessage) → LoopPc  -- the messages that are left of the batch
  draining : LoopPc
  returned : Ending → LoopPc

-- `slots` is the number of values in the channel, `group` the counter of the WaitGroup; `working`
-- are the messages whose workers hold a slot, and `leaving` counts the workers that have given
-- theirs back and not yet called Done. The last three fields are a record of what has happened.
pub record Loop : Type 0 where
  pub pc : LoopPc
  pub cancelled : Bool
  pub slots : ℕ
  pub group : ℕ
  pub working : List SqsMessage
  pub leaving : ℕ
  pub received : List SqsMessage
  pub dispatched : List SqsMessage
  pub abandoned : List SqsMessage

unfoldable pub new_loop : Loop
new_loop = record {
  pc = head;
  cancelled = false;
  slots = 0;
  group = 0;
  working = [];
  leaving = 0;
  received = [];
  dispatched = [];
  abandoned = [];
}

-- the loop after ReceiveMessage has failed
unfoldable pub after_receive_error : Error → LoopPc
after_receive_error e =
    if is_some (is_canceled e) || is_some (is_deadline_exceeded e) then draining else backing_off

-- a worker gets the next message of the batch
unfoldable pub hand_over : SqsMessage → List SqsMessage → Loop → Loop
hand_over m batch s = record s {
  pc = handing batch;
  slots = s.slots + 1;
  group = s.group + 1;
  working = s.working ++ (m ∷ []);
  dispatched = s.dispatched ++ (m ∷ []);
}

-- a worker takes its value out of the channel
unfoldable pub give_back : List SqsMessage → Loop → Loop
give_back others s = record s { slots = s.slots - 1; working = others; leaving = s.leaving + 1 }

-- Steps of the goroutine of Run.
pub data MainStep (max_in_flight : ℕ) (s : Loop) : Loop → Type 0 where
  stop : s.pc ≡ head → s.cancelled ≡ true → MainStep max_in_flight s (record s { pc = draining })
  receive :
      s.pc ≡ head → s.cancelled ≡ false → MainStep max_in_flight s (record s { pc = receiving })
  receive_some :
      (batch : List SqsMessage)
      → s.pc ≡ receiving
      → length batch ≤ 10
      → MainStep max_in_flight s (record s { pc = handing batch; received = s.received ++ batch })
  receive_error :
      (e : Error)
      → s.pc ≡ receiving
      → MainStep max_in_flight s (record s { pc = after_receive_error e })
  back_off_stop :
      s.pc ≡ backing_off
      → s.cancelled ≡ true
      → MainStep max_in_flight s (record s { pc = draining })
  back_off_end : s.pc ≡ backing_off → MainStep max_in_flight s (record s { pc = head })
  hand :
      (m : SqsMessage) (batch : List SqsMessage)
      → s.pc ≡ handing (m ∷ batch)
      → s.slots < max_in_flight
      → MainStep max_in_flight s (hand_over m batch s)
  abandon :
      (m : SqsMessage) (batch : List SqsMessage)
      → s.pc ≡ handing (m ∷ batch)
      → s.cancelled ≡ true
      → MainStep max_in_flight s (record s { pc = draining; abandoned = m ∷ batch })
  batch_done : s.pc ≡ handing [] → MainStep max_in_flight s (record s { pc = head })
  drained :
      s.pc ≡ draining → s.group ≡ 0 → MainStep max_in_flight s (record s { pc = returned complete })
  drain_deadline :
      s.pc ≡ draining → MainStep max_in_flight s (record s { pc = returned deadline_hit })

-- Steps of the outside and of the workers.
pub data OtherStep (s : Loop) : Loop → Type 0 where
  cancel : OtherStep s (record s { cancelled = true })
  worker_released :
      (m : SqsMessage) (xs ys : List SqsMessage)
      → s.working ≡ xs ++ (m ∷ ys)
      → OtherStep s (give_back (xs ++ ys) s)
  worker_done :
      (n : ℕ) → s.leaving ≡ suc n → OtherStep s (record s { leaving = n; group = s.group - 1 })

-- `Runs max s n t`: from `s` to `t`, with `n` steps of Run itself.
pub data Runs (max_in_flight : ℕ) (s : Loop) : ℕ → Loop → Type 0 where
  here : Runs max_in_flight s 0 s
  main :
      {n : ℕ} {t u : Loop}
      → Runs max_in_flight s n t
      → MainStep max_in_flight t u
      → Runs max_in_flight s (suc n) u
  other : {n : ℕ} {t u : Loop} → Runs max_in_flight s n t → OtherStep t u → Runs max_in_flight s n u
