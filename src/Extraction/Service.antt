-- ===== src/Extraction/Service.antt =====
-- services/zip-extraction/internal/extraction/service.go: the names, reasons and statuses here, an
-- entry in `Entry`, the archive in `Process`.
pub mod Names
pub mod Statuses
pub mod Effects
pub mod Rows
pub mod Classify
pub mod Guarantees
pub mod Relations
pub mod RowTable
pub mod Entry
pub mod Process
pub mod Samples
mod Tests
use zip_extraction.Common.{
  ℕ, zero, suc, ◌+◌, Bool, true, false, ◌&&◌, not, Option, none, some, List, [], ◌∷◌, ◌++◌, ltb,
  leb, ◌==◌, if◌then◌else◌, length, take, is_empty,
}
use zip_extraction.Go.Strings.{Text, text, str_eq, count}
use zip_extraction.Go.Fmt.{decimal4}
use zip_extraction.Go.Path.{clean}
use zip_extraction.Common.Int.{ℤ, pos, int64}
use zip_extraction.Extraction.Errors.{
  Error, message, is_some, is_permanent, is_transient, is_deadline_exceeded, is_canceled,
}
use zip_extraction.Extraction.Types.{
  Status, success, partial_failed, failed, status_string, EntryInfo, EntryOutcome,
  entry_status_uploaded,
}
use zip_extraction.Extraction.ZipOpen.{ZipFile}

-- buildChildKey: fmt.Sprintf("input/%s/%04d-%s", execID, idx, safeName)
unfoldable pub build_child_key : Text → ℕ → Text → Text
build_child_key exec_id idx safe_name =
    text "input/" ++ (exec_id ++ (b'/' ∷ (decimal4 idx ++ (b'-' ∷ safe_name))))

unfoldable pub truncate : Text → ℕ → Text
truncate s n = if leb (length s) n then s else take n s ++ text "..."

unfoldable pub failure_reason : Status → Text → Text
unfolding status_string
failure_reason status reason = if not (is_empty reason) then reason else status_string status

-- the keys of an entry's row
unfoldable pub row_pk : Text → Text
row_pk exec_id = text "PIPELINE#" ++ exec_id

unfoldable pub row_sk : ℕ → Text
row_sk idx = text "FILE#" ++ decimal4 idx

-- the EntryInfo that processEntry makes
unfoldable pub entry_info : {R : Type 0} → ZipFile R → EntryInfo
entry_info file = record {
  name = file.name;
  mode = file.mode;
  compressed_size = int64 file.compressed_size64;
  uncompressed_size = int64 file.uncompressed_size64;
  method = file.method;
  directory_depth = pos (count (clean file.name) b'/');
}

unfoldable pub is_uploaded : EntryOutcome → Bool
is_uploaded e = str_eq e.status entry_status_uploaded

-- the loop of computeStatus
unfoldable pub count_uploaded : List EntryOutcome → ℕ
unfolding is_uploaded
count_uploaded [] = 0
count_uploaded (e ∷ rest) = let n = count_uploaded rest in if is_uploaded e then n + 1 else n

unfoldable pub count_failed : List EntryOutcome → ℕ
unfolding is_uploaded
count_failed [] = 0
count_failed (e ∷ rest) = let n = count_failed rest in if is_uploaded e then n else n + 1

unfoldable pub compute_status : List EntryOutcome → Status
unfolding count_uploaded count_failed
compute_status entries =
    if length entries == 0
    then success
    else if count_uploaded entries == length entries
    then success
    else if ltb 0 (count_uploaded entries) && ltb 0 (count_failed entries)
    then partial_failed
    else failed

module _ (quote : Text → Text) where
  unfoldable pub classify_archive_err : Error → Text
  classify_archive_err err =
      if is_some (is_deadline_exceeded err)
      then text "bomb-defence rule 10"
      else if is_some (is_canceled err)
      then text "drain canceled"
      else if is_some (is_permanent err)
      then text "permanent: source-download-failed"
      else if is_some (is_transient err)
      then text "transient: source-download-failed"
      else text "source-download-failed: " ++ message quote err

  exhausted : Option Text → Error → Text
  exhausted (some class) err = text "retries exhausted: " ++ class
  exhausted none err = message quote err

  unfoldable pub classify_entry_failure : Error → Text
  unfolding exhausted
  classify_entry_failure err =
      if is_some (is_permanent err)
      then text "retries exhausted: permanent"
      else exhausted (is_transient err) err
