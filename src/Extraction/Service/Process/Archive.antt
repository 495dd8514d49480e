-- ===== src/Extraction/Service/Process/Archive.antt =====
-- The loop over the entries of an archive, of Process of service.go, and how an archive ends.
use zip_extraction.Common.{
  ℕ, zero, suc, ◌+◌, ◌-◌, ◌/◌, Bool, true, false, Option, none, some, List, [], ◌∷◌, ◌++◌, ltb,
  if◌then◌else◌, length,
}
use zip_extraction.Common.Int.{ℤ, pos, negsuc, ◌+ℤ◌}
use zip_extraction.Go.Strings.{Text, text}
use zip_extraction.Go.Fmt.{signed_decimal}
use zip_extraction.Extraction.Errors.{Error, is_some, is_deadline_exceeded}
use zip_extraction.Extraction.Types.{
  Status, partial_failed, failed, ClaimCheck, Time, EntryOutcome, Outcome,
}
use zip_extraction.Extraction.Describe.{describe_failure}
use zip_extraction.Extraction.ZipOpen.{ZipFile}
use zip_extraction.Extraction.Service.{compute_status, is_uploaded}
use zip_extraction.Extraction.Service.Effects.{
  entry_processed, extraction_failure, bomb_rejection, partial_failure, metric, Ports, M, ◌>>=◌,
  ◌>>◌, pure, lift, emit,
}
use zip_extraction.Extraction.Service.Rows.{EntryResult}
use zip_extraction.Extraction.Service.Entry.{process_entry}

unfoldable pub negate : ℤ → ℤ
negate (pos zero) = pos 0
negate (pos (suc n)) = negsuc n
negate (negsuc n) = pos (suc n)

-- d.Milliseconds(): rounded towards 0
milliseconds : ℤ → ℤ
unfolding negate
milliseconds (pos n) = pos (n / 1000000)
milliseconds (negsuc n) = negate (pos (suc n / 1000000))

-- the variables that the deferred function reads
pub record ArchiveState : Type 0 where
  pub status : Status
  pub reason : Text
  pub detail : Text
  pub entries : List EntryOutcome

module _ {S B R : Type 0} (p : Ports S B R) (msg : ClaimCheck) where
  -- `return Outcome{…}, nil`, which reads the clock, with the variables of that moment
  unfoldable pub leave :
      Time → Status → Text → Text → List EntryOutcome → ℕ → M S (Outcome × ArchiveState)
  unfolding milliseconds negate
  leave start status reason detail entries failures = do
    now ← lift p.now
    pure (
      record {
        status = status;
        reason = reason;
        entry_count = length entries;
        failure_count = failures;
        duration_ms = milliseconds (now +ℤ negate start);
      },
      record { status = status; reason = reason; detail = detail; entries = entries },
    )

  unfoldable pub note_partial : Status → M S (Unit {0})
  note_partial partial_failed = emit (metric partial_failure)
  note_partial _ = pure tt

  -- the end of the archive after `entries`, of which `uploaded` are uploaded
  unfoldable pub complete : Time → List EntryOutcome → ℕ → M S (Outcome × ArchiveState)
  unfolding leave note_partial
  complete start entries uploaded = do
    note_partial (compute_status entries)
    leave start (compute_status entries) [] [] entries (length entries - uploaded)

  -- extractCtx has ended
  unfoldable pub interrupted : Time → List EntryOutcome → ℕ → Error → M S (Outcome × ArchiveState)
  unfolding leave
  interrupted start entries uploaded e =
      if is_some (is_deadline_exceeded e)
      then (do
        emit (metric (bomb_rejection 10))
        emit (metric (extraction_failure (text "bomb-defence rule 10")))
        leave start failed (text "bomb-defence rule 10")
            (describe_failure (text "bomb-defence rule 10") (
              text "aborted after "
              ++ (signed_decimal p.config.max_extraction_duration_sec ++ text " seconds")))
            entries 0)
      else if ltb 0 uploaded
      then (do emit (metric partial_failure); drained partial_failed)
      else drained failed
    where
      drained : Status → M S (Outcome × ArchiveState)
      drained status = do
        emit (metric (extraction_failure (text "drain canceled")))
        leave start status (text "drain canceled") (describe_failure (text "drain canceled") [])
            entries 0

  -- the archive goes on after an entry, unless the entry aborts it
  unfoldable pub abort_or :
      Bool
      → Time
      → EntryResult
      → List EntryOutcome
      → ℕ
      → M S (Outcome × ArchiveState)
      → M S (Outcome × ArchiveState)
  unfolding leave
  abort_or false start res entries uploaded next = next
  abort_or true start res entries uploaded next = do
    emit (metric (extraction_failure res.reason))
    leave start failed res.reason res.detail entries (length entries - uploaded)

  -- what follows processEntry in the loop; `next` goes on with the other files
  unfoldable pub after_entry :
      Time
      → List EntryOutcome
      → ℕ
      → EntryResult
      → (List EntryOutcome → ℕ → M S (Outcome × ArchiveState))
      → M S (Outcome × ArchiveState)
  unfolding abort_or
  after_entry start entries uploaded res next = do
    let entries1 = entries ++ (res.out ∷ [])
    let uploaded1 = if is_uploaded res.out then uploaded + 1 else uploaded
    emit (metric (entry_processed res.out.status))
    abort_or res.archive_abort start res entries1 uploaded1 (next entries1 uploaded1)

  -- the test of extractCtx.Err() before an entry
  unfoldable pub unless_interrupted :
      Time
      → List EntryOutcome
      → ℕ
      → Option Error
      → M S (Outcome × ArchiveState)
      → M S (Outcome × ArchiveState)
  unfolding interrupted
  unless_interrupted start entries uploaded none next = next
  unless_interrupted start entries uploaded (some e) next = interrupted start entries uploaded e

  -- the loop over zr.File, whose next index is `idx`
  unfoldable pub entries_loop :
      Time → ℕ → List (ZipFile R) → List EntryOutcome → ℕ → M S (Outcome × ArchiveState)
  unfolding complete unless_interrupted after_entry
  entries_loop start idx [] entries uploaded = complete start entries uploaded
  entries_loop start idx (file ∷ files) entries uploaded = do
    err ← λ w. (p.ctx_err w.env, w)
    unless_interrupted start entries uploaded err (do
      res ← process_entry p msg (idx + 1) file
      after_entry start entries uploaded res (entries_loop start (idx + 1) files))
