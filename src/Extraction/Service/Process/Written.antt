-- ===== src/Extraction/Service/Process/Written.antt =====
-- The call of the slipsheet writer, and what comes before it and after it.
use mathlib.Core.Path.{subst}
use zip_extraction.Common.{ℕ, ◌+◌, ◌≡◌, ◌∙◌, refl, sym, ap, List, ◌∷◌}
use zip_extraction.Go.Strings.{Text}
use zip_extraction.Extraction.Types.{ClaimCheck, EntryOutcome, Outcome}
use zip_extraction.Extraction.Service.Effects.{SlipsheetCall, World, Ports}
use zip_extraction.Extraction.Service.Guarantees.{slipsheets}
use zip_extraction.Extraction.Service.Relations.{IsClosedForArchive}
use zip_extraction.Extraction.Service.Entry.{process_entry}
use zip_extraction.Extraction.Service.Entry.Related.{process_entry-Related}
use zip_extraction.Extraction.Service.Process.{ArchiveState, complete, leave, slipsheet_of, process}
use zip_extraction.Extraction.Service.Process.Related.{
  after_write, complete-Related, interrupted-Related, counted_once, write_slipsheet-Related,
}
use zip_extraction.Extraction.Service.Process.Induction.{
  IsInvariant, before_slipsheet, process-after_before, before_slipsheet-Ends,
}
use zip_extraction.Extraction.Service.Process.Endings.{
  SameSlipsheets, NumberedSoFar, IsEnd, IsEnd-IsInvariant,
}
use zip_extraction.Extraction.Service.Process.Slipsheet.{
  IsSlipsheetOf, write_slipsheet-call, slipsheet_of-IsSlipsheetOf,
}

-- The relation has every call but that of the slipsheet writer, whatever the keys of the rows.
module _ {S B R : Type 0} (p : Ports S B R) (msg : ClaimCheck) (Rel : World S → World S → Type 0)
    (closed : (Keys : Text × Text → Type 0) → IsClosedForArchive p Keys Rel) where
  -- the world comes after `w0`
  abbrev Follows : World S → ℕ → List EntryOutcome → World S → Type 0
  Follows w0 n entries w = Rel w0 w

  abbrev EndFollows : World S → (Outcome × ArchiveState) × World S → Type 0
  EndFollows w0 (result, w) = Rel w0 w

  Follows-IsInvariant : (w0 : World S) → IsInvariant p msg Rel (Follows w0) (EndFollows w0)
  unfolding complete leave
  Follows-IsInvariant w0 =
      let calls = (closed (λ keys. ⊥)).calls in
      record {
        closed = closed (λ keys. ⊥);
        later = λ n entries before after r h. calls.then w0 before after h r;
        step = λ n file entries w h. calls.then w0 w (process_entry p msg (n + 1) file w).1 h (
            process_entry-Related p (λ keys. Unit {0}) Rel (closed (λ keys. Unit {0})).calls msg
              (n + 1) tt file w);
        completed = λ n start entries uploaded w h.
            calls.then w0 w _ h (complete-Related p _ Rel calls msg start entries uploaded w);
        interrupted_in = λ n start entries uploaded e w h.
            calls.then w0 w _ h (interrupted-Related p _ Rel calls msg start entries uploaded e w);
        failed_with = λ n start counted reason detail entries failures w h.
            calls.then w0 w _ h (counted_once p _ Rel calls msg w);
        removed = λ name result w h. calls.then w0 w _ h ((closed (λ keys. ⊥)).remove name w);
      }

  -- The one slipsheet is written between two stretches that are in the relation.
  abbrev pub IsWritten : World S → Outcome × World S → Type 0
  IsWritten w (outcome, end) =
      (call : SlipsheetCall) × ((ended : World S) × ((slipsheets end.events
            ≡ call ∷ slipsheets w.events)
          × (IsSlipsheetOf msg outcome call × (Rel w ended × Rel (after_write p call ended) end))))

  pub process-IsWritten : (w : World S) → IsWritten w (process p msg w)
  process-IsWritten w =
      let base = slipsheets w.events in
      let (start, (result, ended)) = before_slipsheet p msg w in
      let (good, quiet) =
        before_slipsheet-Ends p msg (SameSlipsheets p msg) (NumberedSoFar p msg base)
          (IsEnd p msg base) (IsEnd-IsInvariant p msg base) w (tt, (refl, refl)) in
      let follows =
        before_slipsheet-Ends p msg Rel (Follows w) (EndFollows w) (Follows-IsInvariant w) w
          ((closed (λ keys. ⊥)).calls.same w) in
      let call = slipsheet_of p msg result.1 in
      subst (IsWritten w) (sym (process-after_before p msg w)) (
        call,
        (
          ended,
          (
            write_slipsheet-call p msg start result.1 ended ∙ ap (λ calls. call ∷ calls) quiet,
            (
              slipsheet_of-IsSlipsheetOf p msg result good,
              (
                follows,
                write_slipsheet-Related p _ Rel (closed (λ keys. ⊥)).calls msg start result.1 ended,
              ),
            ),
          ),
        ),
      )
