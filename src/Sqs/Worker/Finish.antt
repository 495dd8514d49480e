-- ===== src/Sqs/Worker/Finish.antt =====
-- What a shutdown makes of the deletes of a worker.
use mathlib.Core.Path.{subst}
use zip_extraction.Common.{
  ℕ, ◌+◌, Bool, true, ◌≡◌, ◌≢◌, ◌∙◌, refl, Option, none, some, List, [], ◌∷◌,
}
use zip_extraction.Go.Strings.{Text}
use zip_extraction.Config.{SqsConfig}
use zip_extraction.Extraction.Errors.{Error, Try}
use zip_extraction.Extraction.Types.{ClaimCheck}
use zip_extraction.Sqs.{SqsMessage}
use zip_extraction.Sqs.Worker.{
  Reply, Call, change_visibility, delete_message, Worker, note_delete, Step, Steps, shut_down,
  start, parse, reject, cancel_rejected, leave_rejected, handle, cancel, heartbeat_gone, delete,
  recover, beat, quit, here, next,
}

-- the deletes that succeeded
abbrev pub deleted : List Call → ℕ
deleted [] = 0
deleted (change_visibility v err ∷ calls) = deleted calls
deleted (delete_message none ∷ calls) = deleted calls + 1
deleted (delete_message (some e) ∷ calls) = deleted calls

deleted-note_delete :
    (receipt : Option Text) (err : Option Error) (calls : List Call)
    → err ≢ none
    → deleted (note_delete receipt err calls) ≡ deleted calls
unfolding note_delete
deleted-note_delete none err calls h = refl
deleted-note_delete (some r) none calls h = absurd (h refl)
deleted-note_delete (some r) (some e) calls h = refl

module _ {W : Type 0} (cfg : SqsConfig) (decode : Text → Try ClaimCheck)
    (handler : ClaimCheck → W → Reply × W) (Answers : Bool → Option Error → Type 0)
    (m : SqsMessage) where
  -- Where a call in a cancelled context gives an error.
  module _ (refused : (err : Option Error) → Answers true err → err ≢ none) where
    Step-deleted :
        {s t : Worker W}
        → s.root_done ≡ true
        → Step cfg decode handler Answers m s t
        → (t.root_done ≡ true) × (deleted t.calls ≡ deleted s.calls)
    Step-deleted d shut_down = (refl, refl)
    Step-deleted d (start e) = (d, refl)
    Step-deleted d (parse e) = (d, refl)
    Step-deleted {s} d (reject err e a) = (
      d,
      deleted-note_delete m.receipt_handle err s.calls
          (refused err (subst (λ b. Answers b err) d a)),
    )
    Step-deleted d (cancel_rejected e) = (d, refl)
    Step-deleted d (leave_rejected e gone) = (d, refl)
    Step-deleted d (handle msg e) = (d, refl)
    Step-deleted d (cancel x e) = (d, refl)
    Step-deleted d (heartbeat_gone x e gone) = (d, refl)
    Step-deleted {s} d (delete err e a) = (
      d,
      deleted-note_delete m.receipt_handle err s.calls
          (refused err (subst (λ b. Answers b err) d a)),
    )
    Step-deleted d (recover e) = (d, refl)
    Step-deleted d (beat err e a) = (d, refl)
    Step-deleted d (quit e done) = (d, refl)

    Steps-deleted_kept :
        {s t : Worker W}
        → s.root_done ≡ true
        → Steps cfg decode handler Answers m s t
        → (t.root_done ≡ true) × (deleted t.calls ≡ deleted s.calls)
    Steps-deleted_kept d here = (d, refl)
    Steps-deleted_kept d (next r mv) =
        let (d', e) = Steps-deleted_kept d r in let (d'', e') = Step-deleted d' mv in (d'', e' ∙ e)

    -- Where a call of the SQS API in a cancelled context gives an error: from the shutdown on no delete
    -- of a worker succeeds, whatever the handler answers, so that a message that was being handled is
    -- left to be delivered again, although it may have been processed.
    pub Steps-deleted :
        {s t : Worker W}
        → s.root_done ≡ true
        → Steps cfg decode handler Answers m s t
        → deleted t.calls ≡ deleted s.calls
    Steps-deleted d r = (Steps-deleted_kept d r).1
