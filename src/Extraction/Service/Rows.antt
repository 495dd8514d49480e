-- ===== src/Extraction/Service/Rows.antt =====
-- service.go: the row of an entry that failed, and the media type of an entry (mime_shim.go).
use zip_extraction.Common.{ℕ, Bool, true, false, Option, none, [], if◌then◌else◌, is_empty, not}
use zip_extraction.Common.Int.{pos}
use zip_extraction.Go.Strings.{Text, text, str_eq, to_lower}
use zip_extraction.Go.Path.{ext}
use zip_extraction.Extraction.Errors.{Error}
use zip_extraction.Extraction.Types.{
  ClaimCheck, Time, EntryOutcome, PipelineFile, entry_status_failed,
}
use zip_extraction.Extraction.Describe.{rule_reason, describe_failure}
use zip_extraction.Extraction.Service.{row_pk, row_sk}
use zip_extraction.Extraction.Service.Effects.{
  bomb_rejection, record_call, metric, Ports, M, ◌>>=◌, ◌>>◌, pure, lift, emit,
}

-- the entry's outcome, and whether the archive is aborted, with what reason and detail
pub record EntryResult : Type 0 where
  pub out : EntryOutcome
  pub archive_abort : Bool
  pub reason : Text
  pub detail : Text

abbrev pub peek_bytes : ℕ
peek_bytes = 512

unfoldable pub new_outcome : ℕ → Time → EntryOutcome
new_outcome idx now = record {
  index = idx;
  safe_name = [];
  child_key = [];
  mime_type = [];
  size_bytes = pos 0;
  status = entry_status_failed;
  failure_reason = [];
  failure_detail = [];
  recorded_at = now;
  classification = none;
}

module _ {S B R : Type 0} (p : Ports S B R) (msg : ClaimCheck) where
  -- defaultDetectMime (mime_shim.go)
  unfoldable pub detect_mime : Text → Text → Text
  detect_mime peek file_name =
      let sniffed = p.sniff peek in
      if not (str_eq sniffed (text "application/octet-stream"))
      then sniffed
      else by_extension sniffed (ext file_name)
    where
      or_sniffed : Text → Text → Text
      or_sniffed sniffed t = if not (is_empty t) then t else sniffed

      by_extension : Text → Text → Text
      by_extension sniffed extension =
          if not (is_empty extension)
          then or_sniffed sniffed (p.mime_by_extension (to_lower extension))
          else sniffed

  unfoldable pub record_once : PipelineFile → M S (Option Error)
  record_once row = do err ← lift (p.record_entry row); emit (record_call row err); pure err

  unfoldable pub failed_row : EntryOutcome → ℕ → PipelineFile
  failed_row out idx = record {
    pk = row_pk msg.pipeline_execution_id;
    sk = row_sk idx;
    document_id = msg.document_id;
    source_archive = msg.source_key;
    child_key = [];
    mime_type = [];
    status = entry_status_failed;
    size_bytes = pos 0;
    failure_reason = out.failure_reason;
    failure_detail = out.failure_detail;
    recorded_at = out.recorded_at;
  }

  -- recordFailedEntry
  unfoldable pub record_failed_entry : EntryOutcome → ℕ → M S (Unit {0})
  unfolding record_once failed_row
  record_failed_entry out idx = do err ← record_once (failed_row out idx); pure tt

  -- a failure that leaves the archive's other entries alone
  abbrev pub continue_with : EntryOutcome → M S EntryResult
  continue_with out = pure (record { out = out; archive_abort = false; reason = []; detail = [] })

  abbrev pub abort_with : EntryOutcome → M S EntryResult
  abort_with out = pure (record {
    out = out;
    archive_abort = true;
    reason = out.failure_reason;
    detail = out.failure_detail;
  })

  abbrev pub because : EntryOutcome → Text → Text → EntryOutcome
  because out reason detail = record out { failure_reason = reason; failure_detail = detail }

  -- what is done at a bomb-defence error, in each of the four places where one can come
  unfoldable pub reject_bomb : EntryOutcome → ℕ → ℕ → Text → M S EntryResult
  unfolding record_failed_entry
  reject_bomb out idx rule reason = do
    let out1 = because out (rule_reason rule) (describe_failure (rule_reason rule) reason)
    emit (metric (bomb_rejection rule))
    record_failed_entry out1 idx
    abort_with out1
