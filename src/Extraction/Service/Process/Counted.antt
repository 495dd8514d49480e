-- ===== src/Extraction/Service/Process/Counted.antt =====
-- The failures that Process counts.
use mathlib.Core.Path.{subst}
use zip_extraction.Common.{
  sym, ℕ, ◌≡◌, ◌⊎◌, inl, inr, refl, List, [], ◌∷◌, ◌++◌, Bool-cases, ltb, appends,
}
use zip_extraction.Go.Strings.{Text}
use zip_extraction.Extraction.Errors.{Error, is_some, is_deadline_exceeded}
use zip_extraction.Extraction.Types.{ClaimCheck, Time, EntryOutcome, Outcome}
use zip_extraction.Extraction.Service.Effects.{Event, extraction_failure, metric, World, Ports, M}
use zip_extraction.Extraction.Service.Relations.{anything_closed}
use zip_extraction.Extraction.Service.Process.{
  ArchiveState, leave, complete, interrupted, process, write_slipsheet,
}
use zip_extraction.Extraction.Service.Process.Adds.{Adds}
use zip_extraction.Extraction.Service.Process.Induction.{IsInvariant, process-Ends}
use zip_extraction.Extraction.Service.Process.Listed.{write_slipsheet-Adds}

-- a failure of an archive has been counted
abbrev pub HasFailure : List Event → Type 0
HasFailure events =
    (reason : Text) × ((later : List Event) × ((before : List Event) × (events
          ≡ later ++ (metric (extraction_failure reason) ∷ before))))

HasFailure-later :
    {S : Type 0} (a b : World S) → Adds a b → HasFailure a.events → HasFailure b.events
HasFailure-later a b (more, e) (reason, (later, (before, h))) =
    (reason, (more ++ later, (before, rw (e, h) (simp appends))))

module _ {S B R : Type 0} (p : Ports S B R) (msg : ClaimCheck) where
  -- an archive that ends with a reason has been counted
  abbrev IsCounted : (Outcome × ArchiveState) × World S → Type 0
  IsCounted (result, w) = (result.0.reason ≡ []) ⊎ HasFailure w.events

  abbrev Counts : M S (Outcome × ArchiveState) → Type 0
  Counts m = (w : World S) → IsCounted (m w)

  interrupted-Counts :
      (start : Time) (entries : List EntryOutcome) (uploaded : ℕ) (e : Error)
      → Counts (interrupted p msg start entries uploaded e)
  unfolding interrupted leave
  interrupted-Counts start entries uploaded e w =
      elim (Bool-cases (is_some (is_deadline_exceeded e))) [
        | inl late ↦ rw late (inr (_, ([], (_, refl))))
        | inr drained ↦ rw drained (elim (Bool-cases (ltb 0 uploaded)) [
          | inl some_are ↦ rw some_are (inr (_, ([], (_, refl))))
          | inr none_is ↦ rw none_is (inr (_, ([], (_, refl))))
        ])
      ]

  IsCounted-IsInvariant :
      IsInvariant p msg (λ before after. Unit {0}) (λ n entries w. Unit {0}) IsCounted
  unfolding complete leave
  IsCounted-IsInvariant = record {
    closed = anything_closed p;
    later = λ n entries before after r h. tt;
    step = λ n file entries w h. tt;
    completed = λ n start entries uploaded w h. inl refl;
    interrupted_in =
        λ n start entries uploaded e w h. interrupted-Counts start entries uploaded e w;
    failed_with =
        λ n start counted reason detail entries failures w h. inr (counted, ([], (w.events, refl)));
    removed = λ name result w h. h;
  }

  -- Where no call is noted at first: if the outcome of Process has a reason, the metric of a failure has
  -- been counted by then.
  pub process-counts_failure :
      (s : S)
      → ((process p msg (record { env = s; events = [] })).0.reason ≡ [])
        ⊎ HasFailure (process p msg (record { env = s; events = [] })).1.events
  process-counts_failure s =
      let w : World S = record { env = s; events = [] } in
      let (start, (result, (ended, (e, counted)))) =
        process-Ends p msg (λ before after. Unit {0}) (λ n entries w. Unit {0}) IsCounted
          IsCounted-IsInvariant w tt in
      let after = (write_slipsheet p msg start result.1 ended).1 in
      let written : IsCounted (result, after) = elim counted [
        | inl none_given ↦ inl none_given
        | inr failure ↦
            inr (
              HasFailure-later ended after (write_slipsheet-Adds p msg start result.1 ended)
                failure)
      ] in
      subst (λ x. (x.0.reason ≡ []) ⊎ HasFailure x.1.events) (sym e) written
