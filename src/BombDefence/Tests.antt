-- ===== src/BombDefence/Tests.antt =====
-- Runs of the checks, and the theorems at concrete archives.
use mathlib.Core.List.{Pairwise}
use zip_extraction.Common.{
  ℕ, ◌/◌, ◌^◌, ltb, length-take-le, ◌*◌, ◌+◌, ◌-◌, ◌≤◌, ◌≡◌, ◌↔◌, refl, true, false, none, some,
  List, [], ◌∷◌, arith, any, take, drop,
}
use zip_extraction.Common.Int.{pos, int64, negsuc, add64}
use zip_extraction.Go.Strings.{Text, text}
use zip_extraction.Go.Fmt.{decimal}
use zip_extraction.Go.Float.{FloatOps}
use zip_extraction.Go.Io.{Reader, FitsBuffer, read_each, total}
use zip_extraction.Go.Sort.{insertion_sort, insertion_sort-IsSorting}
use zip_extraction.Config.{BombDefenceConfig}
use zip_extraction.Extraction.Errors.{eof, is_some}
use zip_extraction.Extraction.Types.{ArchiveMetadata, EntryDataRange, EntryInfo}
use zip_extraction.BombDefence.{pre_check, overlap_check}
use zip_extraction.BombDefence.Overlap.{AreDisjoint, by_start, overlap_check_iff}
use zip_extraction.BombDefence.LimitedReader.{new_limited_reader, limited_read}
use zip_extraction.BombDefence.LimitedReader.Bounds.{limited_reader_bound}
use zip_extraction.BombDefence.LimitedReader.Transparency.{limited_reader_transparent}
use zip_extraction.BombDefence.LimitedReader.Violations.{is_rule2, limited_reader_rule2}

abbrev pub sample_cfg : BombDefenceConfig
sample_cfg = record {
  max_compressed_size_bytes = pos 1000;
  max_extracted_size_bytes = pos 4;
  max_compression_ratio = 0;
  max_entry_count = pos 10;
  max_directory_depth = pos 3;
  max_single_file_size_bytes = pos 100;
  max_extraction_duration_sec = pos 240;
  max_total_declared_uncompressed_bytes = pos 5000;
}

abbrev range : ℕ → ℕ → ℕ → EntryDataRange
range i a b = record { entry_index = i; start = pos a; end = pos b }

abbrev archive : List EntryDataRange → ArchiveMetadata
archive ranges = record {
  entry_count = pos 2;
  total_compressed_bytes = pos 20;
  total_declared_uncompressed_bytes = pos 40;
  zip64 = false;
  encrypted = false;
  multi_disk = false;
  has_deflate64_entries = false;
  entry_data_ranges = ranges;
}

abbrev apart : ArchiveMetadata
apart = archive (range 0 30 40 ∷ range 1 5 10 ∷ range 2 10 30 ∷ [])

abbrev sort_ranges : List EntryDataRange → List EntryDataRange
sort_ranges = insertion_sort by_start

checks_run : (pre_check sample_cfg apart ≡ none) × (overlap_check sort_ranges apart ≡ none)
unfolding pre_check overlap_check insertion_sort
checks_run = (refl, refl)

-- Whether two ranges with the same start pass depends on their order after the sort, where one of
-- them is empty.
empty_range_runs :
    (overlap_check (λ rs. rs) (archive (range 0 5 5 ∷ range 1 5 9 ∷ [])) ≡ none)
    × (is_some (overlap_check (λ rs. rs) (archive (range 1 5 9 ∷ range 0 5 5 ∷ []))) ≡ true)
unfolding overlap_check
empty_range_runs = (refl, refl)

abbrev small_entry : EntryInfo
small_entry = record {
  name = text "a/b";
  mode = 420;
  compressed_size = pos 10;
  uncompressed_size = pos 20;
  method = 8;
  directory_depth = pos 1;
}

overlap_check_iff_example :
    (overlap_check sort_ranges apart ≡ none) ↔ Pairwise AreDisjoint apart.entry_data_ranges
overlap_check_iff_example =
    overlap_check_iff sort_ranges apart (insertion_sort-IsSorting by_start)
      (omega arith, (omega arith, (omega arith, tt)))

-- Floats for the runs: numbers, with the quotient rounded down.
abbrev pub whole : FloatOps
whole = record {
  of_int = λ a. elim a [ pos n ↦ n | negsuc n ↦ 0 ];
  to_int = pos;
  add = ◌+◌;
  sub = ◌-◌;
  mul = ◌*◌;
  div = ◌/◌;
  pow = ◌^◌;
  lt = ltb;
  print = decimal;
  print2 = decimal;
}

-- A stream of the bytes that are left, which ends with EOF.
abbrev pub stream : Reader Text
stream r n =
    (record { bytes = take n r; err = elim (drop n r) [ [] ↦ some eof | c ∷ s ↦ none ] }, drop n r)

stream-FitsBuffer : FitsBuffer stream
stream-FitsBuffer r n = length-take-le n r

abbrev buffers : List ℕ
buffers = 3 ∷ 3 ∷ 3 ∷ []

limited_runs :
    (total
        (read_each
          (limited_read whole stream)
          (new_limited_reader sample_cfg (text "abcdef") (pos 2))
          buffers).0
      ≡ 3)
    × (any is_rule2
          (read_each
            (limited_read whole stream)
            (new_limited_reader sample_cfg (text "abcdef") (pos 2))
            buffers).0
        ≡ true)
unfolding limited_read new_limited_reader read_each total text add64 int64
limited_runs = (refl, refl)

limited_reader_bound_example :
    total
      (read_each
        (limited_read whole stream)
        (new_limited_reader sample_cfg (text "abcdef") (pos 2))
        buffers).0
    ≤ 4
limited_reader_bound_example =
    limited_reader_bound whole stream sample_cfg (text "abcdef") (pos 2) 4 buffers stream-FitsBuffer
      refl (omega arith) (omega arith) (omega arith)

limited_reader_transparent_example :
    (read_each
      (limited_read whole stream)
      (new_limited_reader sample_cfg (text "abcd") (pos 2))
      buffers).0
    ≡ (read_each stream (text "abcd") buffers).0
unfolding read_each total text
limited_reader_transparent_example =
    limited_reader_transparent whole stream sample_cfg (text "abcd") (pos 2) 4 buffers
      stream-FitsBuffer refl (omega arith) refl (omega arith) (omega arith)

limited_reader_rule2_example :
    any is_rule2
      (read_each
        (limited_read whole stream)
        (new_limited_reader sample_cfg (text "abcdef") (pos 2))
        buffers).0
    ≡ true
unfolding read_each total text
limited_reader_rule2_example =
    limited_reader_rule2 whole stream sample_cfg (text "abcdef") (pos 2) 4 buffers stream-FitsBuffer
      refl (omega arith) (omega arith) refl (omega arith) (omega arith)
