-- ===== src/Extraction/Service/Entry.antt =====
-- processEntry of service.go, from its last stage to its first.
pub mod Facts
pub mod Calls
pub mod Success
pub mod Order
pub mod Stored
pub mod Unrecorded
pub mod Related
pub mod Rejected
pub mod BombUpload
pub mod Resumed
use zip_extraction.Common.{ℕ, Option, none, some, [], ◌∷◌, ◌++◌}
use zip_extraction.Go.Strings.{Text, text}
use zip_extraction.Extraction.Errors.{
  Error, path, Try, ok, fail, message, is_bomb_defence, is_path_validation,
}
use zip_extraction.Extraction.Types.{
  ClaimCheck, EntryInfo, EntryOutcome, PipelineFile, entry_status_uploaded, entry_status_failed,
}
use zip_extraction.Extraction.Describe.{describe_failure}
use zip_extraction.Extraction.ZipOpen.{ZipFile, peek_reader, rebuilt_read}
use zip_extraction.Validation.{Sanitized, safe, rejected, sanitize}
use zip_extraction.BombDefence.{entry_check}
use zip_extraction.BombDefence.LimitedReader.{new_limited_reader, limited_read}
use zip_extraction.Retry.{do_retry}
use zip_extraction.Extraction.Service.{
  build_child_key, truncate, row_pk, row_sk, entry_info, classify_entry_failure,
}
use zip_extraction.Extraction.Service.Effects.{
  extraction_failure, bytes_extracted, upload_call, metric, World, Stream, Ports, M, ◌>>=◌, ◌>>◌,
  lift, emit, retry_env,
}
use zip_extraction.Extraction.Service.Rows.{
  EntryResult, peek_bytes, new_outcome, detect_mime, record_once, record_failed_entry,
  continue_with, abort_with, because, reject_bomb,
}
use zip_extraction.Extraction.Service.Classify.{classify_hop}

module _ {S B R : Type 0} (p : Ports S B R) (msg : ClaimCheck) where
  unfoldable pub uploaded_row : EntryOutcome → ℕ → PipelineFile
  uploaded_row out idx = record {
    pk = row_pk msg.pipeline_execution_id;
    sk = row_sk idx;
    document_id = msg.document_id;
    source_archive = msg.source_key;
    child_key = out.child_key;
    mime_type = out.mime_type;
    status = entry_status_uploaded;
    size_bytes = out.size_bytes;
    failure_reason = [];
    failure_detail = [];
    recorded_at = out.recorded_at;
  }

  -- the operation that records the row, as the retrier calls it
  unfoldable pub record_op : PipelineFile → World S × Unit {0} → Option Error × (World S × Unit {0})
  unfolding record_once
  record_op row (w, u) = let (err, w') = record_once p msg row w in (err, (w', u))

  unfoldable pub record_with_retries : PipelineFile → M S (Option Error)
  unfolding record_op
  record_with_retries row w =
      let (err, s) =
        do_retry p.quote p.float p.retry_config (retry_env (Unit {0}) p) (record_op row) (w, tt) in
      (err, s.0)

  -- the stage after the row of an uploaded entry
  after_record : EntryOutcome → ℕ → Option Error → M S EntryResult
  unfolding classify_hop record_failed_entry
  after_record out idx (some e) = do
    let out1 =
        because p msg (record out { status = entry_status_failed })
          (text "record: " ++ classify_entry_failure p.quote e)
          (text "S3 upload succeeded but DynamoDB write failed: " ++ message p.quote e)
    record_failed_entry p msg out1 idx
    continue_with p msg out1
  after_record out idx none = do
    emit (metric (bytes_extracted out.size_bytes))
    out1 ← classify_hop p msg p.classifier out
    continue_with p msg out1

  -- the operation that uploads the stream, as the retrier calls it
  unfoldable pub upload_op :
      EntryOutcome → EntryInfo → World S × Stream R → Option Error × (World S × Stream R)
  upload_op out entry (w, stream) =
      let ((err, left), env) =
        p.upload p.config.staging_bucket out.child_key (rebuilt_read (limited_read p.float p.read))
          stream entry.uncompressed_size out.mime_type w.env in
      let e =
        upload_call p.config.staging_bucket out.child_key entry.uncompressed_size out.mime_type
          err in
      (err, (record w { env = env; events = e ∷ w.events }, left))

  unfoldable pub upload_with_retries : EntryOutcome → EntryInfo → Stream R → M S (Option Error)
  unfolding upload_op
  upload_with_retries out entry stream w =
      let (err, s) =
        do_retry p.quote p.float p.retry_config (retry_env (Stream R) p) (upload_op out entry)
          (w, stream) in
      (err, s.0)

  after_upload : EntryOutcome → EntryInfo → ℕ → Option Error → M S EntryResult
  unfolding record_with_retries uploaded_row after_record reject_bomb record_failed_entry
  after_upload out entry idx (some e) = elim (is_bomb_defence e) [
    | some bde ↦ reject_bomb p msg out idx bde.rule bde.reason
    | none ↦ do
      let out1 =
          because p msg out (classify_entry_failure p.quote e)
            (describe_failure (classify_entry_failure p.quote e) (message p.quote e))
      record_failed_entry p msg out1 idx
      continue_with p msg out1
  ]
  after_upload out entry idx none = do
    let out1 = record out { status = entry_status_uploaded; size_bytes = entry.uncompressed_size }
    err ← record_with_retries (uploaded_row out1 idx)
    after_record out1 idx err

  pub after_peeked : EntryOutcome → EntryInfo → ℕ → Try (Text × Stream R) → M S EntryResult
  unfolding upload_with_retries after_upload reject_bomb detect_mime
  after_peeked out entry idx (fail e) = elim (is_bomb_defence e) [
    | some bde ↦ reject_bomb p msg out idx bde.rule bde.reason
    | none ↦ continue_with p msg (
        because p msg out (text "peek: " ++ message p.quote e)
          (text "could not buffer first 512 bytes for MIME sniff: " ++ message p.quote e))
  ]
  after_peeked out entry idx (ok (peek, stream)) = do
    let out1 = record out {
      mime_type = detect_mime p msg peek out.safe_name;
      child_key = build_child_key msg.pipeline_execution_id idx out.safe_name;
    }
    err ← upload_with_retries out1 entry stream
    after_upload out1 entry idx err

  after_open : EntryOutcome → EntryInfo → ℕ → Try R → M S EntryResult
  unfolding after_peeked
  after_open out entry idx (fail e) = continue_with p msg (
      because p msg out (text "open-entry: " ++ message p.quote e)
        (text "entry could not be opened by archive/zip: " ++ message p.quote e))
  after_open out entry idx (ok r) = after_peeked out entry idx (
      peek_reader (limited_read p.float p.read)
        (new_limited_reader p.bomb_config r entry.compressed_size) peek_bytes)

  -- an error that is not of the rules
  abort_plain : EntryOutcome → ℕ → Error → M S EntryResult
  unfolding record_failed_entry
  abort_plain out idx e = do
    let out1 = because p msg out (message p.quote e) (message p.quote e)
    record_failed_entry p msg out1 idx
    abort_with p msg out1

  after_check : EntryOutcome → ℕ → ZipFile R → Option Error → M S EntryResult
  unfolding after_open reject_bomb abort_plain
  after_check out idx file (some e) = elim (is_bomb_defence e) [
    | some bde ↦ reject_bomb p msg out idx bde.rule bde.reason
    | none ↦ abort_plain out idx e
  ]
  after_check out idx file none = after_open out (entry_info file) idx file.opened

  sanitized : Sanitized → Try Text
  sanitized (safe s) = ok s
  sanitized (rejected e) = fail (path e)

  after_sanitize : EntryOutcome → ℕ → ZipFile R → Try Text → M S EntryResult
  unfolding after_check abort_plain record_failed_entry
  after_sanitize out idx file (fail e) = elim (is_path_validation e) [
    | some pve ↦ do
      let out1 =
          because p msg out pve.reason (
            describe_failure pve.reason
              (text "rejected path: " ++ p.quote (truncate file.name 128)))
      emit (metric (extraction_failure (text "path-validation")))
      record_failed_entry p msg out1 idx
      abort_with p msg out1
    | none ↦ abort_plain out idx e
  ]
  after_sanitize out idx file (ok name) =
      after_check (record out { safe_name = name }) idx file
        (entry_check p.bomb_config (entry_info file))

  unfoldable pub process_entry : ℕ → ZipFile R → M S EntryResult
  unfolding after_sanitize sanitized new_outcome
  process_entry idx file = do
    now ← lift p.now
    after_sanitize (new_outcome idx now) idx file (sanitized (sanitize file.name))
