-- ===== src/Extraction/Service/Process.antt =====
-- Process of service.go: the whole of a message, with the slipsheet that its `defer` writes. A panic
-- is not modelled.
pub mod Archive
pub mod Endings
pub mod Slipsheet
pub mod Related
pub mod TempFiles
pub mod Rejected
pub mod Induction
pub mod Adds
pub mod Shown
pub mod Listed
pub mod Written
pub mod Table
pub mod Counted
mod Tests
pub use Archive.{ArchiveState}
unfoldable pub use Archive.{
  negate, leave, note_partial, complete, interrupted, abort_or, after_entry, unless_interrupted,
  entries_loop,
}
use zip_extraction.Common.{
  ℕ, zero, suc, ◌+◌, ◌-◌, ◌/◌, Bool, true, false, ◌&&◌, not, Option, none, some, List, [], ◌∷◌,
  ◌++◌, ltb, if◌then◌else◌, length, is_empty,
}
use zip_extraction.Common.Int.{ℤ, pos, negsuc, ◌+ℤ◌}
use zip_extraction.Go.Strings.{Text, text}
use zip_extraction.Go.Fmt.{decimal, signed_decimal}
use zip_extraction.Extraction.Errors.{
  Error, BombDefenceError, UnsupportedFeatureError, Try, ok, fail, message, is_some,
  is_bomb_defence, is_unsupported_feature, is_deadline_exceeded,
}
use zip_extraction.Extraction.Types.{
  Status, success, partial_failed, failed, status_string, ClaimCheck, ArchiveMetadata, Time,
  EntryOutcome, Outcome,
}
use zip_extraction.Extraction.Describe.{rule_reason, describe_failure}
use zip_extraction.Extraction.ZipOpen.{ZipFile, TempFile, open_zip, spill_to_temp}
use zip_extraction.BombDefence.{pre_check, overlap_check}
use zip_extraction.Extraction.Service.{
  classify_archive_err, failure_reason, compute_status, is_uploaded,
}
use zip_extraction.Extraction.Service.Effects.{
  SlipsheetCall, entry_processed, extraction_duration, extraction_failure, bomb_rejection,
  partial_failure, slipsheet_write_failure, slipsheet_call, metric, World, Ports, M, ◌>>=◌, ◌>>◌,
  pure, lift, emit,
}
use zip_extraction.Extraction.Service.Rows.{EntryResult}
use zip_extraction.Extraction.Service.Entry.{process_entry}

module _ {S B R : Type 0} (p : Ports S B R) (msg : ClaimCheck) where
  failure_of : Option Error → M S (Unit {0})
  failure_of none = pure tt
  failure_of (some e) = emit (metric slipsheet_write_failure)

  -- the call of the deferred function: where only the reason is set, its description is the detail
  unfoldable pub slipsheet_of : ArchiveState → SlipsheetCall
  slipsheet_of st = record {
    exec_id = msg.pipeline_execution_id;
    source_archive = msg.source_key;
    status = st.status;
    entries = st.entries;
    reason = st.reason;
    detail =
        if is_empty st.detail && not (is_empty st.reason)
        then describe_failure st.reason []
        else st.detail;
  }

  -- the deferred function
  unfoldable pub write_slipsheet : Time → ArchiveState → M S (Unit {0})
  unfolding slipsheet_of failure_of negate
  write_slipsheet start st = do
    err ← lift (p.write_slipsheet (slipsheet_of st))
    emit (slipsheet_call (slipsheet_of st) err)
    failure_of err
    now ← lift p.now
    emit (metric (extraction_duration (now +ℤ negate start) (status_string st.status)))

  -- PreCheck, and OverlapCheck where it found nothing
  unfoldable pub archive_check : ArchiveMetadata → Option Error
  archive_check meta = elim (pre_check p.bomb_config meta) [
    | some e ↦ some e
    | none ↦ overlap_check p.sort_by_start meta
  ]

  -- a rejection by PreCheck or OverlapCheck
  reject_archive : Time → Error → Option BombDefenceError → M S (Outcome × ArchiveState)
  unfolding leave
  reject_archive start e (some bde) = do
    emit (metric (bomb_rejection bde.rule))
    emit (metric (extraction_failure (rule_reason bde.rule)))
    leave p msg start failed (rule_reason bde.rule)
        (describe_failure (rule_reason bde.rule) bde.reason) [] 0
  reject_archive start e none = do
    emit (metric (extraction_failure (message p.quote e)))
    leave p msg start failed (message p.quote e) (message p.quote e) [] 0

  after_archive_check : Time → List (ZipFile R) → Option Error → M S (Outcome × ArchiveState)
  unfolding entries_loop reject_archive
  after_archive_check start files none = entries_loop p msg start 0 files [] 0
  after_archive_check start files (some e) = reject_archive start e (is_bomb_defence e)

  -- an archive that openZip did not open
  not_opened : Time → Error → Option UnsupportedFeatureError → M S (Outcome × ArchiveState)
  unfolding leave
  not_opened start e (some ufe) = do
    emit (metric (extraction_failure (text "unsupported")))
    leave p msg start failed (text "unsupported: " ++ ufe.feature)
        (describe_failure (text "unsupported: " ++ ufe.feature) []) [] 0
  not_opened start e none = do
    emit (metric (extraction_failure (text "corrupt-zip")))
    leave p msg start failed (text "corrupt-zip: " ++ message p.quote e)
        (describe_failure (text "corrupt-zip: " ++ message p.quote e) (message p.quote e)) [] 0

  pub after_open_zip :
      Time → Try (List (ZipFile R) × ArchiveMetadata) → M S (Outcome × ArchiveState)
  unfolding after_archive_check archive_check not_opened
  after_open_zip start (fail e) = not_opened start e (is_unsupported_feature e)
  after_open_zip start (ok (files, meta)) = after_archive_check start files (archive_check meta)

  -- the temporary file is removed when Process returns
  after_spill : Time → ℤ → Try Text → M S (Outcome × ArchiveState)
  unfolding after_open_zip leave
  after_spill start size (fail e) = do
    emit (metric (extraction_failure (text "spill-failed")))
    leave p msg start failed (text "spill: " ++ message p.quote e) [] [] 0
  after_spill start size (ok name) = do
    file ← λ w. (p.temp_file name w.env, w)
    res ← after_open_zip start (open_zip file size)
    lift (λ s. (tt, p.remove name s))
    pure res

  after_download : Time → Try (B × ℤ) → M S (Outcome × ArchiveState)
  unfolding after_spill leave
  after_download start (fail e) = do
    let reason = classify_archive_err p.quote e
    emit (metric (extraction_failure (failure_reason failed reason)))
    leave p msg start failed reason [] [] 0
  after_download start (ok (body, size)) = do
    name ← lift (spill_to_temp p.create_temp p.copy p.remove body msg.pipeline_execution_id)
    after_spill start size name

  unfoldable pub process : M S Outcome
  unfolding after_download write_slipsheet
  process = do
    start ← lift p.now
    got ← lift (p.download msg.source_bucket msg.source_key)
    (outcome, st) ← after_download start got
    write_slipsheet start st
    pure outcome
