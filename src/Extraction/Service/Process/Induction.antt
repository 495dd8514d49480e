-- ===== src/Extraction/Service/Process/Induction.antt =====
-- What holds when an archive ends, by an invariant of the loop over its entries.
use zip_extraction.Common.{
  ℕ, ◌+◌, ◌≡◌, refl, Bool, true, false, Option, none, some, List, [], ◌∷◌, ◌++◌, if◌then◌else◌,
}
use zip_extraction.Common.Int.{ℤ}
use zip_extraction.Go.Strings.{Text}
use zip_extraction.Extraction.Errors.{
  Error, BombDefenceError, UnsupportedFeatureError, Try, ok, fail, is_bomb_defence,
  is_unsupported_feature,
}
use zip_extraction.Extraction.Types.{
  failed, ClaimCheck, ArchiveMetadata, Time, EntryOutcome, Outcome,
}
use zip_extraction.Extraction.ZipOpen.{ZipFile, open_zip, spill_to_temp}
use zip_extraction.Extraction.ZipOpen.Spill.{spill_to_temp-Related}
use zip_extraction.Extraction.Service.{is_uploaded}
use zip_extraction.Extraction.Service.Effects.{
  entry_processed, extraction_failure, metric, World, Ports, M, emit, ◌>>=◌,
}
use zip_extraction.Extraction.Service.Relations.{in_state, IsClosedForArchive}
use zip_extraction.Extraction.Service.Rows.{EntryResult}
use zip_extraction.Extraction.Service.Entry.{process_entry}
use zip_extraction.Extraction.Service.Process.{
  ArchiveState, leave, complete, interrupted, abort_or, after_entry, unless_interrupted,
  entries_loop, reject_archive, not_opened, archive_check, after_archive_check, after_open_zip,
  after_spill, after_download, write_slipsheet, process,
}

-- `Inv n entries w` is to hold of the entries up to the index `n`, and `Post` when the archive ends.
-- The invariant stays where no row is recorded, and each entry has it go on. It gives `Post` where the
-- archive is completed or interrupted, and where it fails, which is counted first.
pub record IsInvariant {S B R : Type 0} (p : Ports S B R) (msg : ClaimCheck)
    (Rel : World S → World S → Type 0) (Inv : ℕ → List EntryOutcome → World S → Type 0)
    (Post : (Outcome × ArchiveState) × World S → Type 0) : Type 0 where
  pub closed : IsClosedForArchive p (λ keys. ⊥) Rel
  pub later :
      (n : ℕ) (entries : List EntryOutcome) (before after : World S)
      → Rel before after
      → Inv n entries before
      → Inv n entries after
  pub step :
      (n : ℕ) (file : ZipFile R) (entries : List EntryOutcome) (w : World S)
      → Inv n entries w
      → Inv
          (n + 1)
          (entries ++ ((process_entry p msg (n + 1) file w).0.out ∷ []))
          (process_entry p msg (n + 1) file w).1
  pub completed :
      (n : ℕ) (start : Time) (entries : List EntryOutcome) (uploaded : ℕ) (w : World S)
      → Inv n entries w
      → Post (complete p msg start entries uploaded w)
  pub interrupted_in :
      (n : ℕ) (start : Time) (entries : List EntryOutcome) (uploaded : ℕ) (e : Error) (w : World S)
      → Inv n entries w
      → Post (interrupted p msg start entries uploaded e w)
  pub failed_with :
      (n : ℕ) (start : Time) (counted reason detail : Text) (entries : List EntryOutcome)
      (failures : ℕ) (w : World S)
      → Inv n entries w
      → Post (
          leave p msg start failed reason detail entries failures
            (record w { events = metric (extraction_failure counted) ∷ w.events }))
  pub removed :
      (name : Text) (result : Outcome × ArchiveState) (w : World S)
      → Post (result, w)
      → Post (result, in_state w (p.remove name w.env))

module _ {S B R : Type 0} (p : Ports S B R) (msg : ClaimCheck) where
  -- Process up to its deferred function: the start, the result, and the world that it is called in
  pub before_slipsheet : World S → Time × ((Outcome × ArchiveState) × World S)
  before_slipsheet w =
      let (start, env) : Time × S = p.now w.env in
      let (got, env1) : Try (B × ℤ) × S = p.download msg.source_bucket msg.source_key env in
      (start, after_download p msg start got (in_state w env1))

  pub process-after_before :
      (w : World S)
      → process p msg w ≡ (
        (before_slipsheet w).1.0.0,
        (write_slipsheet p msg
            (before_slipsheet w).0
            (before_slipsheet w).1.0.1
            (before_slipsheet w).1.1).1,
      )
  unfolding process before_slipsheet
  process-after_before w = refl

module _ {S B R : Type 0} (p : Ports S B R) (msg : ClaimCheck) (Rel : World S → World S → Type 0)
    (Inv : ℕ → List EntryOutcome → World S → Type 0)
    (Post : (Outcome × ArchiveState) × World S → Type 0)
    (inv : IsInvariant p msg Rel Inv Post) where
  -- a piece that ends the archive after `entries`
  abbrev Ends : ℕ → List EntryOutcome → M S (Outcome × ArchiveState) → Type 0
  Ends n entries m = (w : World S) → Inv n entries w → Post (m w)

  abort_or-Ends :
      (n : ℕ) (abort : Bool) (start : Time) (res : EntryResult) (entries : List EntryOutcome)
      (uploaded : ℕ) (next : M S (Outcome × ArchiveState))
      → Ends n entries next
      → Ends n entries (abort_or p msg abort start res entries uploaded next)
  unfolding abort_or
  abort_or-Ends n false start res entries uploaded next goes_on = goes_on
  abort_or-Ends n true start res entries uploaded next goes_on =
      inv.failed_with n start res.reason res.reason res.detail entries _

  after_entry-Ends :
      (n : ℕ) (start : Time) (entries : List EntryOutcome) (uploaded : ℕ) (res : EntryResult)
      (next : List EntryOutcome → ℕ → M S (Outcome × ArchiveState))
      → ((out : List EntryOutcome) (k : ℕ) → Ends n out (next out k))
      → Ends n (entries ++ (res.out ∷ [])) (after_entry p msg start entries uploaded res next)
  unfolding after_entry
  after_entry-Ends n start entries uploaded res next goes_on w h =
      let entries1 = entries ++ (res.out ∷ []) in
      let uploaded1 = if is_uploaded res.out then uploaded + 1 else uploaded in
      let w1 = (emit (metric (entry_processed res.out.status)) w).1 in
      abort_or-Ends n res.archive_abort start res entries1 uploaded1 (next entries1 uploaded1)
        (goes_on entries1 uploaded1) w1 (inv.later n entries1 w w1 (inv.closed.calls.counted _ w) h)

  unless_interrupted-Ends :
      (n : ℕ) (start : Time) (entries : List EntryOutcome) (uploaded : ℕ) (err : Option Error)
      (next : M S (Outcome × ArchiveState))
      → Ends n entries next
      → Ends n entries (unless_interrupted p msg start entries uploaded err next)
  unfolding unless_interrupted
  unless_interrupted-Ends n start entries uploaded none next goes_on = goes_on
  unless_interrupted-Ends n start entries uploaded (some e) next goes_on =
      inv.interrupted_in n start entries uploaded e

  entries_loop-Ends :
      (start : Time) (idx : ℕ) (files : List (ZipFile R)) (entries : List EntryOutcome)
      (uploaded : ℕ)
      → Ends idx entries (entries_loop p msg start idx files entries uploaded)
  unfolding entries_loop
  entries_loop-Ends start idx [] entries uploaded = inv.completed idx start entries uploaded
  entries_loop-Ends start idx (file ∷ files) entries uploaded = λ w.
      let rest : M S (Outcome × ArchiveState) = process_entry p msg (idx + 1) file >>= λ res.
      after_entry p msg start entries uploaded res (entries_loop p msg start (idx + 1) files) in
      unless_interrupted-Ends idx start entries uploaded (p.ctx_err w.env) rest
        (λ w1 h.
          let (res, w2) = process_entry p msg (idx + 1) file w1 in
          after_entry-Ends (idx + 1) start entries uploaded res
            (entries_loop p msg start (idx + 1) files) (entries_loop-Ends start (idx + 1) files) w2
            (inv.step idx file entries w1 h))
        w

  -- a piece that ends an archive of which no entry has been processed
  abbrev EndsNone : M S (Outcome × ArchiveState) → Type 0
  EndsNone = Ends 0 []

  reject_archive-Ends :
      (start : Time) (e : Error) (found : Option BombDefenceError)
      → EndsNone (reject_archive p msg start e found)
  unfolding reject_archive
  reject_archive-Ends start e none w h = inv.failed_with 0 start _ _ _ [] 0 w h
  reject_archive-Ends start e (some bde) w h =
      inv.failed_with 0 start _ _ _ [] 0 _ (inv.later 0 [] w _ (inv.closed.calls.counted _ w) h)

  not_opened-Ends :
      (start : Time) (e : Error) (found : Option UnsupportedFeatureError)
      → EndsNone (not_opened p msg start e found)
  unfolding not_opened
  not_opened-Ends start e none w h = inv.failed_with 0 start _ _ _ [] 0 w h
  not_opened-Ends start e (some ufe) w h = inv.failed_with 0 start _ _ _ [] 0 w h

  after_archive_check-Ends :
      (start : Time) (files : List (ZipFile R)) (err : Option Error)
      → EndsNone (after_archive_check p msg start files err)
  unfolding after_archive_check
  after_archive_check-Ends start files none = entries_loop-Ends start 0 files [] 0
  after_archive_check-Ends start files (some e) = reject_archive-Ends start e (is_bomb_defence e)

  after_open_zip-Ends :
      (start : Time) (opened : Try (List (ZipFile R) × ArchiveMetadata))
      → EndsNone (after_open_zip p msg start opened)
  unfolding after_open_zip
  after_open_zip-Ends start (fail e) = not_opened-Ends start e (is_unsupported_feature e)
  after_open_zip-Ends start (ok (files, meta)) =
      after_archive_check-Ends start files (archive_check p msg meta)

  after_spill-Ends :
      (start : Time) (size : ℤ) (name : Try Text) → EndsNone (after_spill p msg start size name)
  unfolding after_spill
  after_spill-Ends start size (fail e) w h = inv.failed_with 0 start _ _ _ [] 0 w h
  after_spill-Ends start size (ok name) w h =
      inv.removed name _ _ (after_open_zip-Ends start (open_zip (p.temp_file name w.env) size) w h)

  spilled-Related :
      (body : B) (w : World S)
      → Rel w (
          in_state w
            (spill_to_temp p.create_temp p.copy p.remove body msg.pipeline_execution_id w.env).1)
  spilled-Related body w =
      spill_to_temp-Related p.create_temp p.copy p.remove (λ s t. Rel (in_state w s) (in_state w t))
        (λ a b c h k. inv.closed.calls.then _ _ _ h k)
        (λ pattern s. inv.closed.create_temp pattern (in_state w s))
        (λ name b s. inv.closed.copy name b (in_state w s))
        (λ name s. inv.closed.remove name (in_state w s)) body msg.pipeline_execution_id w.env

  after_download-Ends :
      (start : Time) (got : Try (B × ℤ)) → EndsNone (after_download p msg start got)
  unfolding after_download
  after_download-Ends start (fail e) w h = inv.failed_with 0 start _ _ _ [] 0 w h
  after_download-Ends start (ok (body, size)) w h =
      after_spill-Ends start size _ _ (inv.later 0 [] w _ (spilled-Related body w) h)

  pub before_slipsheet-Ends : (w : World S) → Inv 0 [] w → Post (before_slipsheet p msg w).1
  unfolding before_slipsheet
  before_slipsheet-Ends w h =
      let (start, env) : Time × S = p.now w.env in
      let (got, env1) : Try (B × ℤ) × S = p.download msg.source_bucket msg.source_key env in
      let w1 : World S = in_state w env1 in
      let started : Rel w w1 =
        inv.closed.calls.then w (in_state w env) w1 (inv.closed.calls.now w)
          (inv.closed.calls.download msg.source_bucket msg.source_key (in_state w env)) in
      after_download-Ends start got w1 (inv.later 0 [] w w1 started h)

  -- Process ends the archive with `Post`, and then it writes the slipsheet.
  pub process-Ends :
      (w : World S)
      → Inv 0 [] w
      → (start : Time) × ((result : Outcome × ArchiveState) × ((ended : World S) × ((process p msg w
                ≡ (result.0, (write_slipsheet p msg start result.1 ended).1))
              × Post (result, ended))))
  process-Ends w h =
      let before = before_slipsheet p msg w in
      (
        before.0,
        (before.1.0, (before.1.1, (process-after_before p msg w, before_slipsheet-Ends w h))),
      )
