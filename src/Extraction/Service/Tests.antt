-- ===== src/Extraction/Service/Tests.antt =====
-- Theorems on the service at a concrete archive and with concrete ports.
use zip_extraction.Common.{
  true, ◌==◌, if◌then◌else◌, ℕ, suc, ◌≡◌, refl, false, none, some, List, [], ◌∷◌, arith, take, drop,
}
use zip_extraction.Common.Int.{pos, two63}
use zip_extraction.Go.Strings.{Text, text, count, split, str_eq}
use zip_extraction.Go.Path.{clean}
use zip_extraction.Extraction.Errors.{
  Error, transient, class_network, BombDefenceError, bomb, eof, ok, fail,
}
use zip_extraction.Extraction.Types.{EntryOutcome, entry_status_uploaded, entry_status_failed}
use zip_extraction.Extraction.ZipOpen.{ZipFile}
use zip_extraction.BombDefence.{entry_check, is_symlink}
use zip_extraction.BombDefence.Limits.{IsAcceptable}
use zip_extraction.Extraction.ZipOpen.{both}
use zip_extraction.BombDefence.LimitedReader.{new_limited_reader}
use zip_extraction.Retry.{is_retryable}
use zip_extraction.Extraction.Service.Entry.Rejected.{IsRejected, process_entry-IsRejected}
use zip_extraction.Extraction.Service.{entry_info, compute_status}
use zip_extraction.Extraction.Service.Samples.{sample_config, file, ports, message, world}
use zip_extraction.Extraction.Service.Names.{build_child_key_injective}
use zip_extraction.Extraction.Service.Statuses.{IsStatusOf, compute_status-IsStatusOf}
use zip_extraction.Extraction.Service.Effects.{SlipsheetCall}
use zip_extraction.Extraction.Service.Guarantees.{slipsheets}
use zip_extraction.Extraction.Service.Entry.{process_entry, upload_with_retries}
use zip_extraction.Validation.{safe, sanitize}
use zip_extraction.Extraction.Service.Rows
use zip_extraction.Extraction.Service.Entry.Facts.{IsResult, process_entry-IsResult}
use zip_extraction.Extraction.Service.Process.{process}
use zip_extraction.Extraction.Service.Process.Slipsheet.{IsSlipsheetOf, process-one_slipsheet}

process_entry-IsResult_example :
    IsResult message 1 (process_entry ports message 1 file world).0
    × (slipsheets (process_entry ports message 1 file world).1.events ≡ slipsheets [])
process_entry-IsResult_example = process_entry-IsResult ports message 1 file world

process-one_slipsheet_example :
    (call : SlipsheetCall) × ((slipsheets (process ports message world).1.events
        ≡ call ∷ slipsheets [])
      × IsSlipsheetOf message (process ports message world).0 call)
process-one_slipsheet_example = process-one_slipsheet ports message world

abbrev outcome : ℕ → Text → EntryOutcome
outcome index status = record {
  index = index;
  safe_name = [];
  child_key = [];
  mime_type = [];
  size_bytes = pos 0;
  status = status;
  failure_reason = [];
  failure_detail = [];
  recorded_at = pos 0;
  classification = none;
}

abbrev outcomes : List EntryOutcome
outcomes = outcome 1 entry_status_uploaded ∷ outcome 2 entry_status_failed ∷ []

compute_status-IsStatusOf_example : IsStatusOf (compute_status outcomes) outcomes
compute_status-IsStatusOf_example = compute_status-IsStatusOf outcomes

abbrev index : ℕ
index = 7

build_child_key_injective_example :
    (text "e1" ≡ text "e1") × ((index ≡ index) × (text "a-b" ≡ text "a-b"))
unfolding text
build_child_key_injective_example =
    build_child_key_injective (text "e1") (text "e1") index index (text "a-b") (text "a-b")
      (omega arith) (omega arith) refl

abbrev huge : ZipFile Text
huge = record file { uncompressed_size64 = two63 }

runs : Unit {0}
unfolding process_entry text zip_extraction.Validation.sanitize
    zip_extraction.Validation.has_drive_letter_prefix zip_extraction.Validation.decode
    zip_extraction.Go.Strings.replace_all zip_extraction.Go.Url.path_unescape
    zip_extraction.Go.Strings.has_prefix split str_eq clean count entry_check entry_info is_symlink
    zip_extraction.Validation.is_traversal zip_extraction.Go.Strings.contains
    zip_extraction.Validation.check_base zip_extraction.Go.Strings.after_last
    zip_extraction.Go.Utf8.valid_string zip_extraction.Go.Utf8.runes
    zip_extraction.BombDefence.LimitedReader.limited_read
    zip_extraction.BombDefence.LimitedReader.new_limited_reader zip_extraction.Common.Int.int64
    zip_extraction.Extraction.Errors.find zip_extraction.Extraction.Errors.is_eof
    zip_extraction.Extraction.Errors.is_unexpected_eof
    zip_extraction.Extraction.Service.Rows.new_outcome
    zip_extraction.Extraction.Service.Rows.record_once
    zip_extraction.Extraction.Service.Entry.record_with_retries
    zip_extraction.Extraction.Service.Entry.upload_with_retries
    zip_extraction.Extraction.Service.Rows.detect_mime zip_extraction.Extraction.ZipOpen.peek_reader
    zip_extraction.Extraction.ZipOpen.read_full zip_extraction.Extraction.ZipOpen.rebuilt_read
    zip_extraction.Go.Path.join zip_extraction.Retry.do_retry zip_extraction.Common.Int.add64
    zip_extraction.Go.Strings.cons_head
runs = tt

entry_runs : (process_entry ports message 1 file world).0.out.status ≡ entry_status_uploaded
unfolding runs
entry_runs = refl

abbrev oversized : ZipFile Text
oversized = record file { uncompressed_size64 = 101 }

oversized_name : sanitize oversized.name ≡ safe (text "a.txt")
unfolding runs
oversized_name = refl

oversized_size : (entry_info oversized).uncompressed_size ≡ pos 101
unfolding runs
oversized_size = refl

oversized-not_IsAcceptable : ¬ IsAcceptable sample_config (entry_info oversized)
oversized-not_IsAcceptable h = let small = h.size in let size = oversized_size in ground arith

process_entry-IsRejected_example :
    (bde : BombDefenceError) × ((entry_check sample_config (entry_info oversized) ≡ some (bomb bde))
      × IsRejected ports message 1 bde.rule [] (process_entry ports message 1 oversized world))
process_entry-IsRejected_example =
    process_entry-IsRejected ports message 1 oversized world (text "a.txt") oversized_name
      oversized-not_IsAcceptable
