-- ===== src/Extraction/Service/Process/Related.antt =====
-- How the world after an archive is related to the world before it.
use zip_extraction.Common.{
  ℕ, ◌+◌, Bool, true, false, Option, none, some, List, [], ◌∷◌, inl, inr, Bool-cases, ltb,
}
use zip_extraction.Go.Strings.{Text}
use zip_extraction.Extraction.Errors.{
  Error, BombDefenceError, UnsupportedFeatureError, Try, ok, fail, is_some, is_bomb_defence,
  is_deadline_exceeded, is_unsupported_feature,
}
use zip_extraction.Extraction.Types.{
  Status, success, partial_failed, failed, ClaimCheck, ArchiveMetadata, Time, EntryOutcome, Outcome,
}
use zip_extraction.Extraction.ZipOpen.{ZipFile}
use zip_extraction.Extraction.Service.{compute_status}
use zip_extraction.Extraction.Service.Effects.{
  Metric, SlipsheetCall, metric, slipsheet_call, World, Ports, M, ◌>>=◌,
}
use zip_extraction.Extraction.Service.Rows.{EntryResult}
use zip_extraction.Extraction.Service.Entry.{process_entry}
use zip_extraction.Extraction.Service.Relations.{IsClosed, Moves}
use zip_extraction.Extraction.Service.Entry.Calls.{keys_at}
use zip_extraction.Extraction.Service.Entry.Related.{process_entry-Related}
use zip_extraction.Extraction.Service.Process.{
  ArchiveState, failure_of, slipsheet_of, write_slipsheet, leave, note_partial, complete,
  interrupted, abort_or, after_entry, unless_interrupted, entries_loop, reject_archive, not_opened,
  archive_check, after_archive_check, after_open_zip,
}

-- the world right after a call of the slipsheet writer
abbrev pub after_write : {S B R : Type 0} → Ports S B R → SlipsheetCall → World S → World S
after_write p call w = record {
  env = (p.write_slipsheet call w.env).1;
  events = slipsheet_call call (p.write_slipsheet call w.env).0 ∷ w.events;
}

module _ {S B R : Type 0} (p : Ports S B R) (Keys : Text × Text → Type 0)
    (Rel : World S → World S → Type 0) (closed : IsClosed p Keys Rel) (msg : ClaimCheck) where
  -- a metric, and then the clock
  pub counted_once :
      {x : Metric} (w : World S)
      → Rel w (record { env = (p.now w.env).1; events = metric x ∷ w.events })
  counted_once w = closed.then _ _ _ (closed.counted _ w) (closed.now _)

  pub counted_twice :
      {x y : Metric} (w : World S)
      → Rel w (record { env = (p.now w.env).1; events = metric y ∷ metric x ∷ w.events })
  counted_twice w = closed.then _ _ _ (closed.counted _ w) (counted_once _)

  note_partial-Related : (status : Status) → Moves Rel (note_partial p msg status)
  unfolding note_partial
  note_partial-Related success w = closed.same w
  note_partial-Related partial_failed w = closed.counted _ w
  note_partial-Related failed w = closed.same w

  pub complete-Related :
      (start : Time) (entries : List EntryOutcome) (uploaded : ℕ)
      → Moves Rel (complete p msg start entries uploaded)
  unfolding complete leave
  complete-Related start entries uploaded w =
      closed.then _ _ _ (note_partial-Related (compute_status entries) w) (closed.now _)

  pub interrupted-Related :
      (start : Time) (entries : List EntryOutcome) (uploaded : ℕ) (e : Error)
      → Moves Rel (interrupted p msg start entries uploaded e)
  unfolding interrupted leave
  interrupted-Related start entries uploaded e w =
      elim (Bool-cases (is_some (is_deadline_exceeded e))) [
        | inl late ↦ rw late (counted_twice w)
        | inr drained ↦ rw drained (elim (Bool-cases (ltb 0 uploaded)) [
          | inl some_are ↦ rw some_are (counted_twice w)
          | inr none_is ↦ rw none_is (counted_once w)
        ])
      ]

  failure_of-Related : (err : Option Error) → Moves Rel (failure_of p msg err)
  unfolding failure_of
  failure_of-Related none w = closed.same w
  failure_of-Related (some e) w = closed.counted _ w

  -- what the deferred function does after that call
  pub write_slipsheet-Related :
      (start : Time) (st : ArchiveState) (w : World S)
      → Rel (after_write p (slipsheet_of p msg st) w) (write_slipsheet p msg start st w).1
  unfolding write_slipsheet
  write_slipsheet-Related start st w =
      closed.then _ _ _ (failure_of-Related _ _)
        (closed.then _ _ _ (closed.now _) (closed.counted _ _))

  abort_or-Related :
      (abort : Bool) (start : Time) (res : EntryResult) (entries : List EntryOutcome) (uploaded : ℕ)
      (next : M S (Outcome × ArchiveState))
      → Moves Rel next
      → Moves Rel (abort_or p msg abort start res entries uploaded next)
  unfolding abort_or leave
  abort_or-Related false start res entries uploaded next h w = h w
  abort_or-Related true start res entries uploaded next h w = counted_once w

  after_entry-Related :
      (start : Time) (entries : List EntryOutcome) (uploaded : ℕ) (res : EntryResult)
      (next : List EntryOutcome → ℕ → M S (Outcome × ArchiveState))
      → ((out : List EntryOutcome) (n : ℕ) → Moves Rel (next out n))
      → Moves Rel (after_entry p msg start entries uploaded res next)
  unfolding after_entry
  after_entry-Related start entries uploaded res next h w =
      closed.then _ _ _ (closed.counted _ w)
        (abort_or-Related res.archive_abort start res _ _ _ (h _ _) _)

  unless_interrupted-Related :
      (start : Time) (entries : List EntryOutcome) (uploaded : ℕ) (err : Option Error)
      (next : M S (Outcome × ArchiveState))
      → Moves Rel next
      → Moves Rel (unless_interrupted p msg start entries uploaded err next)
  unfolding unless_interrupted
  unless_interrupted-Related start entries uploaded none next h = h
  unless_interrupted-Related start entries uploaded (some e) next h =
      interrupted-Related start entries uploaded e

  reject_archive-Related :
      (start : Time) (e : Error) (found : Option BombDefenceError)
      → Moves Rel (reject_archive p msg start e found)
  unfolding reject_archive leave
  reject_archive-Related start e none w = counted_once w
  reject_archive-Related start e (some bde) w = counted_twice w

  not_opened-Related :
      (start : Time) (e : Error) (found : Option UnsupportedFeatureError)
      → Moves Rel (not_opened p msg start e found)
  unfolding not_opened leave
  not_opened-Related start e none w = counted_once w
  not_opened-Related start e (some ufe) w = counted_once w

  -- the keys of the rows of the entries are among them
  module _ (writes : (idx : ℕ) → Keys (keys_at msg idx)) where
    entries_loop-Related :
        (start : Time) (idx : ℕ) (archive : List (ZipFile R)) (entries : List EntryOutcome)
        (uploaded : ℕ)
        → Moves Rel (entries_loop p msg start idx archive entries uploaded)
    unfolding entries_loop
    entries_loop-Related start idx [] entries uploaded = complete-Related start entries uploaded
    entries_loop-Related start idx (file ∷ archive) entries uploaded = λ w.
        let rest : M S (Outcome × ArchiveState) = process_entry p msg (idx + 1) file >>= λ res.
        after_entry p msg start entries uploaded res (entries_loop p msg start (idx + 1) archive) in
        unless_interrupted-Related start entries uploaded (p.ctx_err w.env) rest
          (λ w1.
            let (res, w2) = process_entry p msg (idx + 1) file w1 in
            closed.then _ _ _
              (process_entry-Related p Keys Rel closed msg (idx + 1) (writes (idx + 1)) file w1)
              (after_entry-Related start entries uploaded res
                (entries_loop p msg start (idx + 1) archive)
                (entries_loop-Related start (idx + 1) archive) w2))
          w

    after_archive_check-Related :
        (start : Time) (archive : List (ZipFile R)) (err : Option Error)
        → Moves Rel (after_archive_check p msg start archive err)
    unfolding after_archive_check
    after_archive_check-Related start archive none = entries_loop-Related start 0 archive [] 0
    after_archive_check-Related start archive (some e) =
        reject_archive-Related start e (is_bomb_defence e)

    pub after_open_zip-Related :
        (start : Time) (opened : Try (List (ZipFile R) × ArchiveMetadata))
        → Moves Rel (after_open_zip p msg start opened)
    unfolding after_open_zip
    after_open_zip-Related start (fail e) = not_opened-Related start e (is_unsupported_feature e)
    after_open_zip-Related start (ok (archive, meta)) =
        after_archive_check-Related start archive (archive_check p msg meta)
