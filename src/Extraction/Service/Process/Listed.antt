-- ===== src/Extraction/Service/Process/Listed.antt =====
-- The entries that the slipsheet lists, and what holds of them.
use mathlib.Core.Path.{subst}
use zip_extraction.Common.{
  ℕ, ◌+◌, ◌≡◌, refl, sym, ap, Option, none, some, List, [], ◌∷◌, ◌++◌, inl, inr, appends,
  Bool-cases, ltb,
}
use zip_extraction.Extraction.Errors.{Error, is_some, is_deadline_exceeded}
use zip_extraction.Extraction.Types.{ClaimCheck, Time, EntryOutcome, Outcome}
use zip_extraction.Extraction.ZipOpen.{ZipFile}
use zip_extraction.Extraction.Service.Effects.{SlipsheetCall, Event, slipsheet_call, World, Ports}
use zip_extraction.Extraction.Service.Relations.{IsClosedForArchive, Moves}
use zip_extraction.Extraction.Service.Entry.{process_entry}
use zip_extraction.Extraction.Service.Process.{
  ArchiveState, leave, complete, interrupted, failure_of, slipsheet_of, write_slipsheet, process,
}
use zip_extraction.Extraction.Service.Process.Related.{
  complete-Related, interrupted-Related, counted_once, write_slipsheet-Related,
}
use zip_extraction.Extraction.Service.Process.Induction.{IsInvariant, process-Ends}
use zip_extraction.Extraction.Service.Process.Adds.{Adds, Adds-IsClosed}

-- `Inv n entries w` holds of the entries up to the index `n`, stays along the relation, and each entry
-- has it go on.
pub record IsStable {S B R : Type 0} (p : Ports S B R) (msg : ClaimCheck)
    (Rel : World S → World S → Type 0) (Inv : ℕ → List EntryOutcome → World S → Type 0)
    : Type 0 where
  pub closed : IsClosedForArchive p (λ keys. ⊥) Rel
  pub later :
      (n : ℕ) (entries : List EntryOutcome) (before after : World S)
      → Rel before after
      → Inv n entries before
      → Inv n entries after
  pub step :
      (n : ℕ) (file : ZipFile R) (entries : List EntryOutcome) (w : World S)
      → Inv n entries w
      → Inv
          (n + 1)
          (entries ++ ((process_entry p msg (n + 1) file w).0.out ∷ []))
          (process_entry p msg (n + 1) file w).1

module _ {S B R : Type 0} (p : Ports S B R) (msg : ClaimCheck) where
  failure_of-Adds : (err : Option Error) (w : World S) → Adds w (failure_of p msg err w).1
  unfolding failure_of
  failure_of-Adds none w = ([], refl)
  failure_of-Adds (some e) w = (_ ∷ [], refl)

  -- the calls of the deferred function, of which the first is that of the slipsheet
  write_slipsheet-first :
      (start : Time) (st : ArchiveState) (w : World S)
      → (err : Option Error) × ((later : List Event) × ((write_slipsheet p msg start st w).1.events
            ≡ later ++ (slipsheet_call (slipsheet_of p msg st) err ∷ w.events)))
  unfolding write_slipsheet
  write_slipsheet-first start st w =
      let (err, env) = p.write_slipsheet (slipsheet_of p msg st) w.env in
      let w1 : World S = record {
        env = env;
        events = slipsheet_call (slipsheet_of p msg st) err ∷ w.events;
      } in
      (
        err,
        (Adds-IsClosed p {Keys = λ keys. Unit {0}}).then w1 (failure_of p msg err w1).1
            (write_slipsheet p msg start st w).1 (failure_of-Adds err w1) (_ ∷ [], refl),
      )

  pub write_slipsheet-Adds :
      (start : Time) (st : ArchiveState) (w : World S) → Adds w (write_slipsheet p msg start st w).1
  write_slipsheet-Adds start st w =
      let (err, (later, e)) = write_slipsheet-first start st w in
      (later ++ (slipsheet_call (slipsheet_of p msg st) err ∷ []), rw e (simp appends))

-- It holds of the entries that the slipsheet lists.
module _ {S B R : Type 0} (p : Ports S B R) (msg : ClaimCheck) (Rel : World S → World S → Type 0)
    (Inv : ℕ → List EntryOutcome → World S → Type 0) (stable : IsStable p msg Rel Inv)
    (writes : (call : SlipsheetCall) (w : World S)
      → Rel w (record {
        env = (p.write_slipsheet call w.env).1;
        events = slipsheet_call call (p.write_slipsheet call w.env).0 ∷ w.events;
      })) where
  -- the entries that the deferred function reads
  abbrev HasListed : (Outcome × ArchiveState) × World S → Type 0
  HasListed (result, w) = (k : ℕ) × Inv k result.1.entries w

  interrupted-entries :
      (start : Time) (entries : List EntryOutcome) (uploaded : ℕ) (e : Error) (w : World S)
      → (interrupted p msg start entries uploaded e w).0.1.entries ≡ entries
  unfolding interrupted leave
  interrupted-entries start entries uploaded e w =
      elim (Bool-cases (is_some (is_deadline_exceeded e))) [
        | inl late ↦ rw late refl
        | inr drained ↦ rw drained (elim (Bool-cases (ltb 0 uploaded)) [
          | inl some_are ↦ rw some_are refl
          | inr none_is ↦ rw none_is refl
        ])
      ]

  HasListed-IsInvariant : IsInvariant p msg Rel Inv HasListed
  unfolding complete leave
  HasListed-IsInvariant = record {
    closed = stable.closed;
    later = stable.later;
    step = stable.step;
    completed = λ n start entries uploaded w h. (
      n,
      stable.later n entries w _
          (complete-Related p _ Rel stable.closed.calls msg start entries uploaded w) h,
    );
    interrupted_in = λ n start entries uploaded e w h.
        let after = (interrupted p msg start entries uploaded e w).1 in
        (
          n,
          subst (λ out. Inv n out after) (sym (interrupted-entries start entries uploaded e w))
              (stable.later n entries w after
                (interrupted-Related p _ Rel stable.closed.calls msg start entries uploaded e w) h),
        );
    failed_with = λ n start counted reason detail entries failures w h.
        (n, stable.later n entries w _ (counted_once p _ Rel stable.closed.calls msg w) h);
    removed = λ name result w (k, h). (k, stable.later k _ w _ (stable.closed.remove name w) h);
  }

  write_slipsheet-Moves :
      (start : Time) (st : ArchiveState) → Moves Rel (write_slipsheet p msg start st)
  write_slipsheet-Moves start st w =
      stable.closed.calls.then _ _ _ (writes (slipsheet_of p msg st) w)
        (write_slipsheet-Related p _ Rel stable.closed.calls msg start st w)

  -- What holds of the entries, in a world: they are those that the slipsheet lists, which is written
  -- afterwards, and what follows keeps to the relation.
  abbrev pub EndsListed : World S → Type 0
  EndsListed end =
      (call : SlipsheetCall) × ((err : Option Error) × ((later : List Event) × ((w : World S)
            × ((end.events ≡ later ++ (slipsheet_call call err ∷ w.events))
                × (Rel w end × ((k : ℕ) × Inv k call.entries w))))))

  pub process-Listed : (w : World S) → Inv 0 [] w → EndsListed (process p msg w).1
  unfolding slipsheet_of
  process-Listed w h =
      let (start, (result, (w2, (e, listed)))) =
        process-Ends p msg Rel Inv HasListed HasListed-IsInvariant w h in
      let (err, (later, first)) = write_slipsheet-first p msg start result.1 w2 in
      subst EndsListed (sym (ap (λ x. x.1) e)) (
        slipsheet_of p msg result.1,
        (err, (later, (w2, (first, (write_slipsheet-Moves start result.1 w2, listed))))),
      )
