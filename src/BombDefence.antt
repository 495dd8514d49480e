-- ===== src/BombDefence.antt =====
-- services/zip-extraction/internal/bombdefence: the rules against zip bombs. `checker.go` is here
-- and in `LimitedReader`, `format.go` in `Format`.
pub mod Format
pub mod Limits
pub mod Overlap
pub mod LimitedReader
mod Tests
use zip_extraction.Common.{
  ℕ, ◌/◌, ◌%◌, ◌^◌, Bool, ◌&&◌, Option, none, some, List, [], ◌∷◌, ltb, ◌==◌, if◌then◌else◌, length,
}
use zip_extraction.Common.Int.{ℤ, pos, ltb_ℤ, gtb_ℤ}
use zip_extraction.Go.Strings.{Text, text}
use zip_extraction.Config.{BombDefenceConfig}
use zip_extraction.Extraction.Errors.{BombDefenceError, Error, bomb}
use zip_extraction.Extraction.Types.{ArchiveMetadata, EntryDataRange, EntryInfo}
use Format.{format_exceeded, format_overlap}

abbrev pub reject : ℕ → Text → Option Error
reject rule reason = some (bomb (record { rule = rule; reason = reason }))

-- `none` is the nil error.
unfoldable pub pre_check : BombDefenceConfig → ArchiveMetadata → Option Error
pre_check cfg meta =
    if gtb_ℤ meta.total_compressed_bytes cfg.max_compressed_size_bytes
    then reject 1 (
        format_exceeded (text "compressed size") meta.total_compressed_bytes
          cfg.max_compressed_size_bytes)
    else if gtb_ℤ meta.entry_count cfg.max_entry_count
    then reject 4 (format_exceeded (text "entry count") meta.entry_count cfg.max_entry_count)
    else if gtb_ℤ cfg.max_total_declared_uncompressed_bytes (pos 0)
        && gtb_ℤ meta.total_declared_uncompressed_bytes cfg.max_total_declared_uncompressed_bytes
    then reject 12 (
        format_exceeded (text "total declared uncompressed size")
          meta.total_declared_uncompressed_bytes cfg.max_total_declared_uncompressed_bytes)
    else none

-- os.FileMode(mode) & os.ModeSymlink != 0: bit 27
unfoldable pub is_symlink : ℕ → Bool
is_symlink mode = mode / 2 ^ 27 % 2 == 1

unfoldable pub entry_check : BombDefenceConfig → EntryInfo → Option Error
unfolding is_symlink
entry_check cfg e =
    if gtb_ℤ e.directory_depth cfg.max_directory_depth
    then reject 5
        (format_exceeded (text "directory depth") e.directory_depth cfg.max_directory_depth)
    else if is_symlink e.mode
    then reject 6 (text "symlink entries are rejected")
    else if gtb_ℤ e.uncompressed_size cfg.max_single_file_size_bytes
    then reject 9 (
        format_exceeded (text "single-file size") e.uncompressed_size
          cfg.max_single_file_size_bytes)
    else none

-- The loop of OverlapCheck over the sorted ranges: `prev` and `cur` are neighbours.
unfoldable pub overlap_walk : EntryDataRange → List EntryDataRange → Option Error
overlap_walk prev [] = none
overlap_walk prev (cur ∷ rest) =
    if ltb_ℤ cur.start prev.end then reject 11 (format_overlap prev cur) else overlap_walk cur rest

unfoldable pub overlap_sorted : List EntryDataRange → Option Error
unfolding overlap_walk
overlap_sorted [] = none
overlap_sorted (r ∷ rs) = overlap_walk r rs

-- `sort_by_start` is sort.Slice with `less` on `Start`, which leaves the order of equal starts open.
unfoldable pub overlap_check :
    (List EntryDataRange → List EntryDataRange) → ArchiveMetadata → Option Error
unfolding overlap_sorted
overlap_check sort_by_start meta =
    if ltb (length meta.entry_data_ranges) 2
    then none
    else overlap_sorted (sort_by_start meta.entry_data_ranges)
