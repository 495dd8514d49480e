-- ===== src/Extraction/Types.antt =====
-- services/zip-extraction/internal/extraction/types.go: the data of the domain.
use zip_extraction.Common.{ℕ, Bool, Option, List}
use zip_extraction.Common.Int.{ℤ}
use zip_extraction.Go.Strings.{Text, text}
use zip_extraction.Go.Float.{Float64}

-- The terminal status of a pipeline execution.
pub data Status : Type 0 where
  success partial_failed failed : Status

unfoldable pub status_string : Status → Text
status_string success = text "SUCCESS"
status_string partial_failed = text "PARTIAL_FAILED"
status_string failed = text "FAILED"

pub record ClaimCheck : Type 0 where
  pub pipeline_execution_id : Text
  pub tenant_id : Text
  pub document_id : Text
  pub source_bucket : Text
  pub source_key : Text
  pub correlation_id : Text

-- The compressed bytes `start` to `end` (exclusive) of the archive.
pub record EntryDataRange : Type 0 where
  pub entry_index : ℕ
  pub start : ℤ
  pub end : ℤ

pub record ArchiveMetadata : Type 0 where
  pub entry_count : ℤ
  pub total_compressed_bytes : ℤ
  pub total_declared_uncompressed_bytes : ℤ
  pub zip64 : Bool
  pub encrypted : Bool
  pub multi_disk : Bool
  pub has_deflate64_entries : Bool
  pub entry_data_ranges : List EntryDataRange

-- `mode` holds the bits of an os.FileMode.
pub record EntryInfo : Type 0 where
  pub name : Text
  pub mode : ℕ
  pub compressed_size : ℤ
  pub uncompressed_size : ℤ
  pub method : ℕ
  pub directory_depth : ℤ

pub record Classification : Type 0 where
  pub format : Text
  pub category : Text
  pub sub_category : Text
  pub confidence_score : Float64
  pub detection_tier : Text
  pub is_forced_slipsheet : Bool
  pub slipsheet_reason : Text
  pub content_hash : Text
  pub is_duplicate : Bool
  pub policy_version : Text
  pub elapsed_ms : ℤ

-- a time.Time, in nanoseconds since the epoch
abbrev pub Time : Type 0
Time = ℤ

pub record EntryOutcome : Type 0 where
  pub index : ℕ
  pub safe_name : Text
  pub child_key : Text
  pub mime_type : Text
  pub size_bytes : ℤ
  pub status : Text
  pub failure_reason : Text
  pub failure_detail : Text
  pub recorded_at : Time
  pub classification : Option Classification

-- The row of an entry in DynamoDB.
pub record PipelineFile : Type 0 where
  pub pk : Text
  pub sk : Text
  pub document_id : Text
  pub source_archive : Text
  pub child_key : Text
  pub mime_type : Text
  pub status : Text
  pub size_bytes : ℤ
  pub failure_reason : Text
  pub failure_detail : Text
  pub recorded_at : Time

pub record Outcome : Type 0 where
  pub status : Status
  pub reason : Text
  pub entry_count : ℕ
  pub failure_count : ℕ
  pub duration_ms : ℤ

abbrev pub entry_status_uploaded : Text
entry_status_uploaded = text "UPLOADED"

abbrev pub entry_status_failed : Text
entry_status_failed = text "FAILED"

abbrev pub feature_encrypted_zip : Text
feature_encrypted_zip = text "encrypted-zip"

abbrev pub feature_multi_disk : Text
feature_multi_disk = text "multi-disk"

abbrev pub feature_deflate64 : Text
feature_deflate64 = text "deflate64"
