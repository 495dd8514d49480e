-- ===== src/Extraction/Service/Process/Slipsheet.antt =====
-- The slipsheet that Process writes.
use mathlib.Core.Path.{subst}
use zip_extraction.Common.{◌≡◌, ◌∙◌, sym, ap, refl, Option, none, some, List, ◌∷◌, All, length}
use zip_extraction.Extraction.Errors.{Error}
use zip_extraction.Extraction.Types.{success, ClaimCheck, Time, Outcome}
use zip_extraction.Extraction.Service.Statuses.{Uploaded}
use zip_extraction.Extraction.Service.Effects.{SlipsheetCall, slipsheet_call, World, Ports}
use zip_extraction.Extraction.Service.Guarantees.{slipsheets, Quiet}
use zip_extraction.Extraction.Service.Process.{
  ArchiveState, failure_of, slipsheet_of, write_slipsheet, process,
}
use zip_extraction.Extraction.Service.Process.Induction.{process-Ends}
use zip_extraction.Extraction.Service.Process.Endings.{
  Numbered, IsTerminal, SameSlipsheets, NumberedSoFar, IsEnd, IsEnd-IsInvariant,
}

-- The slipsheet is that of the message and of the outcome.
pub record IsSlipsheetOf (msg : ClaimCheck) (outcome : Outcome) (call : SlipsheetCall)
    : Type 0 where
  pub exec_id : call.exec_id ≡ msg.pipeline_execution_id
  pub source_archive : call.source_archive ≡ msg.source_key
  pub status : call.status ≡ outcome.status
  pub reason : call.reason ≡ outcome.reason
  pub count : outcome.entry_count ≡ length call.entries
  pub all_uploaded : call.status ≡ success → All Uploaded call.entries
  pub numbered : Numbered 0 call.entries

module _ {S B R : Type 0} (p : Ports S B R) (msg : ClaimCheck) where
  failure_of-Quiet : (err : Option Error) → Quiet (failure_of p msg err)
  unfolding failure_of slipsheets
  failure_of-Quiet none w = (tt, refl)
  failure_of-Quiet (some e) w = (tt, refl)

  pub write_slipsheet-call :
      (start : Time) (st : ArchiveState) (w : World S)
      → slipsheets (write_slipsheet p msg start st w).1.events
        ≡ slipsheet_of p msg st ∷ slipsheets w.events
  unfolding write_slipsheet slipsheets
  write_slipsheet-call start st w =
      let (err, env) = p.write_slipsheet (slipsheet_of p msg st) w.env in
      (failure_of-Quiet err
        (record { env = env; events = slipsheet_call (slipsheet_of p msg st) err ∷ w.events })).1

  pub slipsheet_of-IsSlipsheetOf :
      (result : Outcome × ArchiveState)
      → IsTerminal result
      → IsSlipsheetOf msg result.0 (slipsheet_of p msg result.1)
  unfolding slipsheet_of
  slipsheet_of-IsSlipsheetOf result good = record {
    exec_id = refl;
    source_archive = refl;
    status = sym good.status;
    reason = sym good.reason;
    count = good.count;
    all_uploaded = good.all_uploaded;
    numbered = good.numbered;
  }

  -- the slipsheet of an outcome, the latest of the slipsheets
  abbrev HasSlipsheet : List SlipsheetCall → Outcome × World S → Type 0
  HasSlipsheet base (outcome, w) =
      (call : SlipsheetCall) × ((slipsheets w.events ≡ call ∷ base)
        × IsSlipsheetOf msg outcome call)

  -- Process writes one slipsheet, whatever its calls answer. The slipsheet names the execution and the
  -- archive of the message, and has the status and the reason of the outcome, the number of its
  -- entries is the outcome's, they have the indices from 1 on, and where it says SUCCESS, all of them
  -- are uploaded.
  pub process-one_slipsheet :
      (w : World S)
      → (call : SlipsheetCall) × ((slipsheets (process p msg w).1.events
            ≡ call ∷ slipsheets w.events)
          × IsSlipsheetOf msg (process p msg w).0 call)
  process-one_slipsheet w =
      let base = slipsheets w.events in
      let (start, (result, (ended, (e, (good, quiet))))) =
        process-Ends p msg (SameSlipsheets p msg) (NumberedSoFar p msg base) (IsEnd p msg base)
          (IsEnd-IsInvariant p msg base) w (tt, (refl, refl)) in
      subst (HasSlipsheet base) (sym e) (
        slipsheet_of p msg result.1,
        (
          write_slipsheet-call start result.1 ended
              ∙ ap (λ calls. slipsheet_of p msg result.1 ∷ calls) quiet,
          slipsheet_of-IsSlipsheetOf result good,
        ),
      )
