-- ===== src/Extraction/Service/Process/Shown.antt =====
-- The entries that the slipsheet lists as UPLOADED, and the calls that were made for them.
use mathlib.Core.Path.{subst}
use zip_extraction.Common.{
  ℕ, ◌+◌, ◌≡◌, refl, sym, true, Option, List, [], ◌∷◌, ◌++◌, All, All-append, All-of_All,
}
use zip_extraction.Common.Int.{ℤ}
use zip_extraction.Go.Strings.{Text}
use zip_extraction.Extraction.Errors.{Error, is_some}
use zip_extraction.Extraction.Types.{ClaimCheck, EntryOutcome, entry_status_uploaded}
use zip_extraction.Extraction.Service.Effects.{SlipsheetCall, Event, slipsheet_call, World, Ports}
use zip_extraction.Extraction.Service.Rows.{EntryResult}
use zip_extraction.Extraction.Service.Entry.{process_entry}
use zip_extraction.Extraction.Service.Entry.Calls.{
  keys_at, RecordedAfterUpload, RecordedAfterUpload-cons,
}
use zip_extraction.Extraction.Service.Entry.Facts.{process_entry-IsResult}
use zip_extraction.Extraction.Service.Entry.Order.{process_entry-in_order}
use zip_extraction.Extraction.Service.Entry.Related.{process_entry-Related}
use zip_extraction.Extraction.Service.Process.{process}
use zip_extraction.Extraction.Service.Process.Adds.{Adds, Adds-IsClosed, Adds-IsClosedForArchive}
use zip_extraction.Extraction.Service.Process.Listed.{IsStable, process-Listed}

-- An entry that says UPLOADED is in the calls: a row with its keys has been recorded, after an upload
-- to its child key.
abbrev pub IsShown : ClaimCheck → List Event → EntryOutcome → Type 0
IsShown msg events e =
    e.status ≡ entry_status_uploaded → RecordedAfterUpload (keys_at msg e.index) e.child_key events

RecordedAfterUpload-more :
    (keys : Text × Text) (key : Text) (more events : List Event)
    → RecordedAfterUpload keys key events
    → RecordedAfterUpload keys key (more ++ events)
RecordedAfterUpload-more keys key [] events h = h
RecordedAfterUpload-more keys key (e ∷ more) events h =
    RecordedAfterUpload-cons keys key e (more ++ events)
      (RecordedAfterUpload-more keys key more events h)

-- what is shown stays so
pub IsShown-later :
    {S : Type 0} (msg : ClaimCheck) (before after : World S) (entries : List EntryOutcome)
    → Adds before after
    → All (IsShown msg before.events) entries
    → All (IsShown msg after.events) entries
IsShown-later msg before after entries (more, e) h =
    All-of_All (IsShown msg before.events) (IsShown msg after.events)
      (λ x shown u.
        subst (RecordedAfterUpload (keys_at msg x.index) x.child_key) (sym e)
          (RecordedAfterUpload-more (keys_at msg x.index) x.child_key more before.events (shown u)))
      entries h

module _ {S B R : Type 0} (p : Ports S B R) (msg : ClaimCheck) where
  -- the entries so far are shown
  abbrev AllShown : ℕ → List EntryOutcome → World S → Type 0
  AllShown n entries w = All (IsShown msg w.events) entries

  AllShown-IsStable :
      ((d : ℤ) (s : S) → (p.wait d s).0 ≡ true → is_some (p.ctx_err (p.wait d s).1) ≡ true)
      → IsStable p msg Adds AllShown
  AllShown-IsStable ends = record {
    closed = Adds-IsClosedForArchive p;
    later = λ n entries before after more h. IsShown-later msg before after entries more h;
    step = λ n file entries w h.
        let (res, w1) = process_entry p msg (n + 1) file w in
        let ((number, _), _) = process_entry-IsResult p msg (n + 1) file w in
        All-append (IsShown msg w1.events) entries (res.out ∷ [])
          (IsShown-later msg w w1 entries
            (process_entry-Related p (λ keys. Unit {0}) Adds (Adds-IsClosed p) msg (n + 1) tt file
              w)
            h)
          (
            shown_at (n + 1) res w1.events number
                (process_entry-in_order p msg ends (n + 1) file w),
            tt,
          );
  }
    where
      shown_at :
          (idx : ℕ) (res : EntryResult) (events : List Event)
          → res.out.index ≡ idx
          → (res.out.status ≡ entry_status_uploaded
              → RecordedAfterUpload (keys_at msg idx) res.out.child_key events)
          → IsShown msg events res.out
      shown_at idx res events number h = rw number h

module _ {S B R : Type 0} (p : Ports S B R) (msg : ClaimCheck)
    (ends : (d : ℤ) (s : S)
      → (p.wait d s).0 ≡ true
      → is_some (p.ctx_err (p.wait d s).1) ≡ true) where
  -- Where a context that ended a wait has an error, and no call is noted at first: among the calls of
  -- Process is one of the slipsheet writer. Each entry that it lists as UPLOADED has been uploaded to
  -- its child key, and a row with the keys of the entry, that child key and that status has been recorded
  -- after it, by calls that succeeded before that of the slipsheet writer.
  pub process-lists_uploaded :
      (s : S)
      → (call : SlipsheetCall) × ((err : Option Error) × ((later : List Event) × ((before : List
                Event)
              × (((process p msg (record { env = s; events = [] })).1.events
                    ≡ later ++ (slipsheet_call call err ∷ before))
                  × All (IsShown msg before) call.entries))))
  process-lists_uploaded s =
      let (call, (err, (later, (w, (e, (_, (_, shown))))))) =
        process-Listed p msg Adds (AllShown p msg) (AllShown-IsStable p msg ends)
          (λ call w. (_ ∷ [], refl)) (record { env = s; events = [] }) tt in
      (call, (err, (later, (w.events, (e, shown)))))
