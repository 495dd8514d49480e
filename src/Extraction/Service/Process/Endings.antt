-- ===== src/Extraction/Service/Process/Endings.antt =====
-- How an archive ends, and what the outcome and the slipsheet's variables have in common.
use zip_extraction.Common.{
  ℕ, suc, ◌+◌, ◌≡◌, ◌∙◌, refl, List, [], ◌∷◌, ◌++◌, arith, All, ltb, length, if_intro,
  length-append,
}
use zip_extraction.Common.Int.{ℤ}
use zip_extraction.Go.Strings.{Text}
use zip_extraction.Extraction.Errors.{Error, is_deadline_exceeded, is_some}
use zip_extraction.Extraction.Types.{
  Status, success, partial_failed, failed, ClaimCheck, Time, EntryOutcome, Outcome,
}
use zip_extraction.Extraction.Service.{compute_status}
use zip_extraction.Extraction.Service.Statuses.{IsStatusOf, Uploaded, compute_status-IsStatusOf}
use zip_extraction.Extraction.Service.Effects.{SlipsheetCall, World, Ports, M}
use zip_extraction.Extraction.Service.Guarantees.{slipsheets, Ensures, Quiet}
use zip_extraction.Extraction.Service.Relations.{IsClosedForArchive}
use zip_extraction.Extraction.Service.Entry.{process_entry}
use zip_extraction.Extraction.Service.Entry.Facts.{process_entry-IsResult}
use zip_extraction.Extraction.Service.Process.{
  ArchiveState, leave, note_partial, complete, interrupted,
}
use zip_extraction.Extraction.Service.Process.Induction.{IsInvariant}

-- The entries have the indices from `k + 1` on.
abbrev pub Numbered : ℕ → List EntryOutcome → Type 0
Numbered k [] = Unit
Numbered k (e ∷ es) = (e.index ≡ suc k) × Numbered (suc k) es

pub Numbered-append :
    (k : ℕ) (es : List EntryOutcome) (e : EntryOutcome)
    → Numbered k es
    → e.index ≡ suc (k + length es)
    → Numbered k (es ++ (e ∷ []))
Numbered-append k [] e h i = (i ∙ omega arith, tt)
Numbered-append k (x ∷ es) e h i = (h.0, Numbered-append (suc k) es e h.1 (i ∙ omega arith))

-- The outcome and the variables that the deferred function reads agree.
pub record IsTerminal (result : Outcome × ArchiveState) : Type 0 where
  pub status : result.0.status ≡ result.1.status
  pub reason : result.0.reason ≡ result.1.reason
  pub count : result.0.entry_count ≡ length result.1.entries
  pub all_uploaded : result.1.status ≡ success → All Uploaded result.1.entries
  pub numbered : Numbered 0 result.1.entries

-- a failure needs no entry to be uploaded
pub not_success : {A : Type 0} → failed ≡ success → A
not_success e = absurd (ground arith)

pub failed-IsTerminal :
    (reason detail : Text) (entries : List EntryOutcome) (failures : ℕ) (duration : ℤ)
    → Numbered 0 entries
    → IsTerminal (
      record {
        status = failed;
        reason = reason;
        entry_count = length entries;
        failure_count = failures;
        duration_ms = duration;
      },
      record { status = failed; reason = reason; detail = detail; entries = entries },
    )
failed-IsTerminal reason detail entries failures duration numbered = record {
  status = refl;
  reason = refl;
  count = refl;
  all_uploaded = not_success;
  numbered = numbered;
}

of_success :
    (status : Status) (entries : List EntryOutcome)
    → IsStatusOf status entries
    → status ≡ success
    → All Uploaded entries
of_success success entries h e = h
of_success partial_failed entries h e = absurd (ground arith)
of_success failed entries h e = absurd (ground arith)

All-of_success :
    (entries : List EntryOutcome) → compute_status entries ≡ success → All Uploaded entries
All-of_success entries =
    of_success (compute_status entries) entries (compute_status-IsStatusOf entries)

module _ {S B R : Type 0} (p : Ports S B R) (msg : ClaimCheck) where
  abbrev Ends : M S (Outcome × ArchiveState) → Type 0
  Ends m = Ensures IsTerminal m

  note_partial-Quiet : (status : Status) → Quiet (note_partial p msg status)
  unfolding note_partial slipsheets
  note_partial-Quiet success w = (tt, refl)
  note_partial-Quiet partial_failed w = (tt, refl)
  note_partial-Quiet failed w = (tt, refl)

  complete-Ends :
      (start : Time) (entries : List EntryOutcome) (uploaded : ℕ)
      → Numbered 0 entries
      → Ends (complete p msg start entries uploaded)
  unfolding complete leave
  complete-Ends start entries uploaded numbered w = (
    record {
      status = refl;
      reason = refl;
      count = refl;
      all_uploaded = All-of_success entries;
      numbered = numbered;
    },
    (note_partial-Quiet (compute_status entries) w).1,
  )

  interrupted-Ends :
      (start : Time) (entries : List EntryOutcome) (uploaded : ℕ) (e : Error)
      → Numbered 0 entries
      → Ends (interrupted p msg start entries uploaded e)
  unfolding interrupted leave slipsheets
  interrupted-Ends start entries uploaded e numbered =
      if_intro {A = M S (Outcome × ArchiveState)} Ends (is_some (is_deadline_exceeded e))
        (λ w. (failed-IsTerminal _ _ _ _ _ numbered, refl))
        (if_intro {A = M S (Outcome × ArchiveState)} Ends (ltb 0 uploaded)
          (λ w. (
            record {
              status = refl;
              reason = refl;
              count = refl;
              all_uploaded = (λ e. absurd (ground arith));
              numbered = numbered;
            },
            refl,
          ))
          (λ w. (failed-IsTerminal _ _ _ _ _ numbered, refl)))

  -- the calls of the slipsheet writer stay
  abbrev pub SameSlipsheets : World S → World S → Type 0
  SameSlipsheets before after = slipsheets after.events ≡ slipsheets before.events

  SameSlipsheets-IsClosed : IsClosedForArchive p (λ keys. ⊥) SameSlipsheets
  unfolding slipsheets
  SameSlipsheets-IsClosed = record {
    calls = record {
      same = λ w. refl;
      then = λ a b c d e. e ∙ d;
      counted = λ x w. refl;
      now = λ w. refl;
      rand = λ w. refl;
      wait = λ d w. refl;
      download = λ bucket key w. refl;
      upload = λ bucket key read stream size mime w. refl;
      record_entry = λ row w writes. refl;
      classify = λ classify is req w. refl;
    };
    create_temp = λ pattern w. refl;
    copy = λ name body w. refl;
    remove = λ name w. refl;
  }

  module _ (base : List SlipsheetCall) where
    -- the entries are numbered, and no slipsheet has been written
    abbrev pub NumberedSoFar : ℕ → List EntryOutcome → World S → Type 0
    NumberedSoFar n entries w =
        Numbered 0 entries × ((length entries ≡ n) × (slipsheets w.events ≡ base))

    abbrev pub IsEnd : (Outcome × ArchiveState) × World S → Type 0
    IsEnd (result, w) = IsTerminal result × (slipsheets w.events ≡ base)

    pub IsEnd-IsInvariant : IsInvariant p msg SameSlipsheets NumberedSoFar IsEnd
    unfolding leave slipsheets
    IsEnd-IsInvariant = record {
      closed = SameSlipsheets-IsClosed;
      later =
          λ n entries before after same (numbered, (l, none_yet)). (numbered, (l, same ∙ none_yet));
      step = λ n file entries w (numbered, (l, none_yet)).
          let ((i, _), quiet) = process_entry-IsResult p msg (n + 1) file w in
          let out = (process_entry p msg (n + 1) file w).0.out in
          (
            Numbered-append 0 entries out numbered (i ∙ omega (arith, l)),
            (length-append entries (out ∷ []) ∙ omega (arith, l), quiet ∙ none_yet),
          );
      completed = λ n start entries uploaded w (numbered, (_, none_yet)).
          let (good, quiet) = complete-Ends start entries uploaded numbered w in
          (good, quiet ∙ none_yet);
      interrupted_in = λ n start entries uploaded e w (numbered, (_, none_yet)).
          let (good, quiet) = interrupted-Ends start entries uploaded e numbered w in
          (good, quiet ∙ none_yet);
      failed_with = λ n start counted reason detail entries failures w (numbered, (_, none_yet)).
          (failed-IsTerminal reason detail entries failures _ numbered, none_yet);
      removed = λ name result w h. h;
    }
