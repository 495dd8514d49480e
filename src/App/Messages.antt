-- ===== src/App/Messages.antt =====
-- A message from the queue to its slipsheet: the worker of adapter.go with the handler of app.go and
-- Process of service.go.
use mathlib.Core.Path.{subst}
use zip_extraction.Common.{Bool, ◌≡◌, ◌∙◌, ap, Option, ◌∷◌}
use zip_extraction.Go.Strings.{Text}
use zip_extraction.Config.{SqsConfig}
use zip_extraction.Extraction.Errors.{Error, Try, ok, fail}
use zip_extraction.Extraction.Types.{ClaimCheck}
use zip_extraction.Extraction.Service.Effects.{SlipsheetCall, World, Ports}
use zip_extraction.Extraction.Service.Guarantees.{slipsheets}
use zip_extraction.Extraction.Service.Process.{process}
use zip_extraction.Extraction.Service.Process.Slipsheet.{IsSlipsheetOf, process-one_slipsheet}
use zip_extraction.Sqs.{SqsMessage, parse_message}
use zip_extraction.Sqs.Worker.{finished, Worker, new_worker, Steps}
use zip_extraction.Sqs.Worker.Disposition.{deletes, one_delete, Disposition, Steps-Disposition}
use zip_extraction.App.{handle_message}

module _ {S B R : Type 0} (p : Ports S B R) (cfg : SqsConfig) (decode : Text → Try ClaimCheck)
    (Answers : Bool → Option Error → Type 0) (m : SqsMessage) where
  -- A worker that has finished a valid message has written one slipsheet, which is that of the message
  -- and of the outcome of Process, and has tried to delete the message once, whatever the outcome is,
  -- that of a failed download of the archive included; with no receipt handle there is no delete.
  pub message-one_slipsheet :
      {t : Worker (World S)} (root_done : Bool) (w : World S) (msg : ClaimCheck)
      → parse_message decode m.body ≡ ok msg
      → Steps cfg decode (handle_message p) Answers m (new_worker root_done w) t
      → t.pc ≡ finished
      → (deletes t.calls ≡ one_delete m.receipt_handle)
        × ((call : SlipsheetCall) × ((slipsheets t.world.events ≡ call ∷ slipsheets w.events)
              × IsSlipsheetOf msg (process p msg w).0 call))
  unfolding handle_message
  message-one_slipsheet {t} root_done w msg valid r e =
      let (n, same) =
        subst (λ q. Disposition (handle_message p) m.receipt_handle q w (deletes t.calls) t.world)
          valid (Steps-Disposition cfg decode (handle_message p) Answers m root_done w r e) in
      let (call, (written, good)) = process-one_slipsheet p msg w in
      (n, (call, (ap (λ x. slipsheets x.events) same ∙ written, good)))

  -- A worker that has finished a message whose body is invalid has called nothing but the SQS API,
  -- and has tried to delete the message once; with no receipt handle there is no delete.
  pub message_invalid :
      {t : Worker (World S)} (root_done : Bool) (w : World S) (x : Error)
      → parse_message decode m.body ≡ fail x
      → Steps cfg decode (handle_message p) Answers m (new_worker root_done w) t
      → t.pc ≡ finished
      → (deletes t.calls ≡ one_delete m.receipt_handle) × (t.world ≡ w)
  message_invalid {t} root_done w x invalid r e =
      subst (λ q. Disposition (handle_message p) m.receipt_handle q w (deletes t.calls) t.world)
        invalid (Steps-Disposition cfg decode (handle_message p) Answers m root_done w r e)
