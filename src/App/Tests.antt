-- ===== src/App/Tests.antt =====
-- The theorems on the application with a message of a small archive.
use zip_extraction.Common.{
  ℕ, Bool, true, false, ◌≡◌, refl, Option, none, some, [], ◌∷◌, if◌then◌else◌,
}
use zip_extraction.Common.Int.{pos}
use zip_extraction.Go.Strings.{Text, text}
use zip_extraction.Config.{SqsConfig}
use zip_extraction.Extraction.Errors.{Error, Try, ok, is_some, context_canceled}
use zip_extraction.Extraction.Types.{ClaimCheck}
use zip_extraction.Extraction.Service.Effects.{SlipsheetCall, World}
use zip_extraction.Extraction.Service.Guarantees.{slipsheets}
use zip_extraction.Extraction.Service.Process.{process}
use zip_extraction.Extraction.Service.Process.Slipsheet.{IsSlipsheetOf}
use zip_extraction.Extraction.Service.Samples.{ports, message, world}
use zip_extraction.Health.{Response, new_gate, serve}
use zip_extraction.Sqs.{SqsMessage, parse_message}
use zip_extraction.Sqs.Worker.{
  finished, Worker, new_worker, Steps, here, next, start, parse, handle, cancel, heartbeat_gone,
  delete, quit, reject, cancel_rejected, leave_rejected,
}
use zip_extraction.Sqs.Worker.Disposition.{deletes, one_delete}
use zip_extraction.App.{http_ended, run, handle_message}
use zip_extraction.App.Messages.{message-one_slipsheet}
use zip_extraction.App.Readiness.{gate_after, Orderly, passes, run-Orderly}

abbrev config : SqsConfig
config = record {
  heartbeat_interval_sec = pos 30;
  max_in_flight = pos 1;
  graceful_shutdown_timeout_sec = pos 250;
  visibility_timeout_sec = pos 300;
}

abbrev decode : Text → Try ClaimCheck
decode body = ok message

abbrev sqs_message : SqsMessage
sqs_message = record {
  message_id = none;
  receipt_handle = some (text "r1");
  body = some (text "{}");
}

abbrev no_body : SqsMessage
no_body = record sqs_message { body = none }

-- the SQS API may answer anything
abbrev Answers : Bool → Option Error → Type 0
Answers done err = Unit

parses : parse_message decode sqs_message.body ≡ ok message
unfolding parse_message text zip_extraction.Sqs.validate_claim_check
parses = refl

finishes :
    (t : Worker (World ℕ)) × Steps config decode
      (handle_message ports)
      Answers
      sqs_message
      (new_worker false world)
      t
    × (t.pc ≡ finished)
unfolding parses new_worker zip_extraction.Sqs.Worker.start_heartbeat
    zip_extraction.Sqs.Worker.after_parse zip_extraction.Sqs.Worker.after_handler handle_message
    zip_extraction.App.reply_of
finishes = (
  _,
  next
      (next
        (next
          (next (next (next (next here (start refl)) (parse refl)) (handle message refl))
            (cancel true refl))
          (quit refl refl))
        (heartbeat_gone true refl refl))
      (delete none refl tt),
  refl,
)

message-one_slipsheet_example :
    (deletes finishes.0.calls ≡ one_delete sqs_message.receipt_handle)
    × ((call : SlipsheetCall) × ((slipsheets finishes.0.world.events
            ≡ call ∷ slipsheets world.events)
          × IsSlipsheetOf message (process ports message world).0 call))
message-one_slipsheet_example =
    message-one_slipsheet ports config decode Answers sqs_message false world message parses
      finishes.1 finishes.2

run-Orderly_example :
    let (actions, err) = run (some none) (http_ended (some context_canceled)) true in
    let gate = gate_after new_gate actions in
    let not_found : Response = record { status_code = 404; content_type = none; body = [] } in
    Orderly new_gate actions
    × (passes (some none) ≡ false → (is_some err ≡ true) × (gate.is_ready ≡ false))
    × (passes (some none) ≡ true → gate.is_ready ≡ is_some err)
    × ((serve not_found not_found gate (text "/healthz/ready")).status_code
        ≡ (if gate.is_ready then 200 else 503))
run-Orderly_example =
    run-Orderly (some none) (http_ended (some context_canceled)) true
      (record { status_code = 404; content_type = none; body = [] })
      (record { status_code = 404; content_type = none; body = [] })
