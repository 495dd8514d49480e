-- ===== src/Sqs.antt =====
-- services/zip-extraction/internal/sqs/adapter.go: the messages, their decoding and the intervals
-- here, a worker with its heartbeat in `Worker`, the receive loop with its drain in `Loop`.
pub mod Worker
pub mod Loop
mod Tests
use zip_extraction.Common.{
  ℕ, Bool, true, false, ◌||◌, not, Option, none, some, List, [], if◌then◌else◌, is_empty,
}
use zip_extraction.Common.Int.{ℤ, pos, gtb_ℤ, int32, times64}
use zip_extraction.Go.Strings.{Text, text, str_eq}
use zip_extraction.Config.{SqsConfig}
use zip_extraction.Extraction.Errors.{Error, plain, wrap, Try, ok, fail, find, as_foreign}
use zip_extraction.Extraction.Types.{ClaimCheck}

-- the fields of an SQS message that are used; none is a nil pointer
pub record SqsMessage : Type 0 where
  pub message_id : Option Text
  pub receipt_handle : Option Text
  pub body : Option Text

-- the argument of ReceiveMessage
pub record ReceiveInput : Type 0 where
  pub queue_url : Text
  pub max_number_of_messages : ℕ
  pub wait_time_seconds : ℕ
  pub visibility_timeout : ℤ

unfoldable pub receive_input : Text → SqsConfig → ReceiveInput
receive_input queue_url cfg = record {
  queue_url = queue_url;
  max_number_of_messages = 10;
  wait_time_seconds = 20;
  visibility_timeout = int32 cfg.visibility_timeout_sec;
}

-- the visibility that a heartbeat asks for, in seconds
unfoldable pub heartbeat_visibility : SqsConfig → ℤ
unfolding int32
heartbeat_visibility cfg =
    let visibility = int32 cfg.visibility_timeout_sec in
    if gtb_ℤ visibility (pos 0) then visibility else pos 300

-- the time between two heartbeats, in nanoseconds
unfoldable pub heartbeat_interval : SqsConfig → ℤ
unfolding times64
heartbeat_interval cfg =
    let interval = times64 cfg.heartbeat_interval_sec 1000000000 in
    if gtb_ℤ interval (pos 0) then interval else pos 30000000000

-- isBenignHeartbeatErr, of an error that is not nil
benign_code : Option Text → Bool
benign_code none = false
benign_code (some code) =
    str_eq code (text "ReceiptHandleIsInvalid") || str_eq code (text "MessageNotInflight")

unfoldable pub is_benign_heartbeat_err : Error → Bool
unfolding benign_code find
is_benign_heartbeat_err err = benign_code (find (as_foreign (λ f. f.api_code)) err)

unfoldable pub validate_claim_check : ClaimCheck → Option Error
validate_claim_check m =
    if is_empty m.pipeline_execution_id
    then some (plain (text "pipelineExecutionId: required"))
    else if is_empty m.tenant_id
    then some (plain (text "tenantId: required"))
    else if is_empty m.document_id
    then some (plain (text "documentId: required"))
    else if is_empty m.source_bucket
    then some (plain (text "sourceBucket: required"))
    else if is_empty m.source_key
    then some (plain (text "sourceKey: required"))
    else if is_empty m.correlation_id
    then some (plain (text "correlationId: required"))
    else none

-- `decode` is json.Unmarshal into a ClaimCheck.
module _ (decode : Text → Try ClaimCheck) where
  valid_or : ClaimCheck → Option Error → Try ClaimCheck
  valid_or msg none = ok msg
  valid_or msg (some e) = fail e

  decoded : Try ClaimCheck → Try ClaimCheck
  unfolding valid_or
  decoded (fail e) = fail (wrap (text "json: ") e)
  decoded (ok msg) = valid_or msg (validate_claim_check msg)

  unfoldable pub parse_message : Option Text → Try ClaimCheck
  unfolding decoded
  parse_message none = fail (plain (text "empty body"))
  parse_message (some body) =
      if is_empty body then fail (plain (text "empty body")) else decoded (decode body)
