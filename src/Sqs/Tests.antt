-- ===== src/Sqs/Tests.antt =====
-- The theorems on the queue at a message, with a worker and a loop that run.
use zip_extraction.Common.{
  ℕ, ◌+◌, ◌≤◌, Bool, true, false, ◌≡◌, ◌≢◌, refl, Option, none, some, [], ◌∷◌, ◌++◌, arith, length,
}
use zip_extraction.Common.Int.{pos}
use zip_extraction.Go.Strings.{Text, text}
use zip_extraction.Config.{SqsConfig}
use zip_extraction.Extraction.Errors.{Error, Try, ok, fail, plain, context_canceled}
use zip_extraction.Extraction.Types.{ClaimCheck}
use zip_extraction.Extraction.Service.Samples.{message}
use zip_extraction.Sqs.{
  SqsMessage, parse_message, heartbeat_visibility, heartbeat_interval, is_benign_heartbeat_err,
  validate_claim_check,
}
use zip_extraction.Sqs.Worker.{
  Reply, answered, Call, change_visibility, delete_message, finished, Worker, new_worker, Steps,
  here, next, shut_down, start, parse, handle, cancel, heartbeat_gone, delete, beat, quit,
}
use zip_extraction.Sqs.Worker.Order.{DeletesLast, Steps-DeletesLast, rejected-change_visibility}
use zip_extraction.Sqs.Worker.Disposition.{deletes, Disposition, Steps-Disposition}
use zip_extraction.Sqs.Worker.Progress.{efforts, GoesOn as WorkerGoesOn, Steps-GoesOn}
use zip_extraction.Sqs.Worker.Finish.{deleted, Steps-deleted}
use zip_extraction.Sqs.Loop.{
  Loop, new_loop, Runs, main, other, receive, receive_some, hand, abandon, worker_released,
  worker_done, drained, returned, complete,
}
use zip_extraction.Sqs.Loop.{OtherStep}
use zip_extraction.Sqs.Loop.Invariant.{pending}
use zip_extraction.Sqs.Loop.Slots.{Runs-slots, Runs-dispatched}
use zip_extraction.Sqs.Loop.Drain.{GoesOn, Runs-returns}

abbrev config : SqsConfig
config = record {
  heartbeat_interval_sec = pos 30;
  max_in_flight = pos 1;
  graceful_shutdown_timeout_sec = pos 250;
  visibility_timeout_sec = pos 0;
}

defaults : (heartbeat_visibility config ≡ pos 300) × (heartbeat_interval config ≡ pos 30000000000)
unfolding heartbeat_visibility heartbeat_interval
defaults = (refl, refl)

abbrev decode : Text → Try ClaimCheck
decode body = elim body [ [] ↦ fail (plain []) | c ∷ s ↦ ok message ]

abbrev sqs_message : SqsMessage
sqs_message = record {
  message_id = some (text "m1");
  receipt_handle = some (text "r1");
  body = some (text "{}");
}

abbrev no_body : SqsMessage
no_body = record sqs_message { body = none }

abbrev handler : ClaimCheck → ℕ → Reply × ℕ
handler msg n = (answered true none, n + 1)

-- A call in a cancelled context is refused, and any other succeeds.
abbrev Answers : Bool → Option Error → Type 0
Answers done err = (done ≡ true → err ≡ some context_canceled) × (done ≡ false → err ≡ none)

answer : (b : Bool) → (e : Option Error) × Answers b e
answer b = elim b as (λ b. (e : Option Error) × Answers b e) [
  | true ↦ (some context_canceled, (λ e. refl, λ e. cc))
  | false ↦ (none, (λ e. cc, λ e. refl))
]

parses : parse_message decode sqs_message.body ≡ ok message
unfolding parse_message text validate_claim_check
parses = refl

-- One heartbeat, the handler, and the delete.
finishes :
    (t : Worker ℕ) × Steps config decode handler Answers sqs_message (new_worker false 0) t
    × (t.pc ≡ finished)
    × (deleted t.calls ≡ 1)
unfolding new_worker parse_message text validate_claim_check
    zip_extraction.Sqs.Worker.start_heartbeat zip_extraction.Sqs.Worker.after_parse
    zip_extraction.Sqs.Worker.after_handler zip_extraction.Sqs.Worker.after_beat
    zip_extraction.Sqs.Worker.note_delete
finishes = (
  _,
  next
      (next
        (next
          (next
            (next
              (next (next (next here (start refl)) (parse refl))
                (beat none refl (λ e. cc, λ e. refl)))
              (handle message refl))
            (cancel true refl))
          (quit refl refl))
        (heartbeat_gone true refl refl))
      (delete none refl (λ e. cc, λ e. refl)),
  refl,
  refl,
)

Steps-DeletesLast_example : DeletesLast finishes.0.calls
Steps-DeletesLast_example =
    Steps-DeletesLast config decode handler Answers sqs_message false 0 message parses finishes.1

rejects : (e : Error) × (parse_message decode no_body.body ≡ fail e)
unfolding parse_message
rejects = (_, refl)

rejected-change_visibility_example :
    (t : Worker ℕ) × Steps config decode handler Answers no_body (new_worker false 0) t
    × ¬ DeletesLast t.calls
rejected-change_visibility_example =
    rejected-change_visibility config decode handler Answers no_body 0 rejects.0 (text "r1")
      rejects.1 refl (λ e. cc, λ e. refl)

Steps-Disposition_example :
    Disposition handler sqs_message.receipt_handle
      (parse_message decode sqs_message.body)
      0
      (deletes finishes.0.calls)
      finishes.0.world
Steps-Disposition_example =
    Steps-Disposition config decode handler Answers sqs_message false 0 finishes.1 finishes.2

Steps-GoesOn_example :
    (efforts config decode handler Answers sqs_message finishes.1 ≤ 7)
    × WorkerGoesOn config decode handler Answers sqs_message finishes.0
Steps-GoesOn_example =
    Steps-GoesOn config decode handler Answers sqs_message answer false 0 finishes.1

-- The same worker, where the service is being shut down: the delete is refused.
drains :
    (t : Worker ℕ) × Steps config decode handler Answers sqs_message (new_worker true 0) t
    × (t.pc ≡ finished)
    × (t.world ≡ 1)
unfolding finishes
drains = (
  _,
  next
      (next
        (next
          (next (next (next (next here (start refl)) (parse refl)) (handle message refl))
            (cancel true refl))
          (quit refl refl))
        (heartbeat_gone true refl refl))
      (delete (some context_canceled) refl (λ e. refl, λ e. cc)),
  refl,
  refl,
)

refused : (err : Option Error) → Answers true err → err ≢ none
refused err a e = let b = a.0 refl in cc

Steps-deleted_example : deleted drains.0.calls ≡ deleted []
unfolding new_worker
Steps-deleted_example =
    Steps-deleted config decode handler Answers sqs_message refused {s = new_worker true 0} refl
      drains.1

-- Two messages for one slot: the second is abandoned by the shutdown.
abandons :
    (n : ℕ) × (s : Loop) × Runs 1 new_loop n s × (s.cancelled ≡ true) × (length s.abandoned ≡ 1)
unfolding new_loop zip_extraction.Sqs.Loop.hand_over
abandons = (
  _,
  _,
  main
      (other
        (main
          (main (main Runs.here (receive refl refl))
            (receive_some (sqs_message ∷ no_body ∷ []) refl (omega arith)))
          (hand sqs_message (no_body ∷ []) refl (omega arith)))
        OtherStep.cancel)
      (abandon no_body [] refl refl),
  refl,
  refl,
)

-- The worker finishes, and so does Run.
completes : (n : ℕ) × (s : Loop) × Runs 1 abandons.1 n s × (s.pc ≡ returned complete)
unfolding abandons zip_extraction.Sqs.Loop.give_back
completes = (
  _,
  _,
  main (other (other Runs.here (worker_released sqs_message [] [] refl)) (worker_done 0 refl))
      (drained refl refl),
  refl,
)

Runs-slots_example :
    (length abandons.1.working ≤ 1)
    × ((abandons.1.slots ≡ length abandons.1.working)
        × (abandons.1.pc ≡ returned complete
            → (abandons.1.working ≡ []) × (abandons.1.leaving ≡ 0)))
Runs-slots_example = Runs-slots 1 abandons.2

Runs-dispatched_example :
    (abandons.1.received ≡ abandons.1.dispatched ++ (pending abandons.1.pc ++ abandons.1.abandoned))
    × (length (pending abandons.1.pc) + length abandons.1.abandoned ≤ 10)
    × (abandons.1.cancelled ≡ false → abandons.1.abandoned ≡ [])
Runs-dispatched_example = Runs-dispatched 1 abandons.2

Runs-returns_example : (completes.0 ≤ 14) × GoesOn 1 completes.1
Runs-returns_example = Runs-returns 1 abandons.2 abandons.3 completes.2
