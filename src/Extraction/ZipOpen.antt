-- ===== src/Extraction/ZipOpen.antt =====
-- services/zip-extraction/internal/extraction/zip_open.go: the archive's metadata, the temporary
-- file, and the reader that gives the peeked bytes again. Package archive/zip and the file system
-- are parameters.
pub mod Rebuild
pub mod Metadata
pub mod Peek
pub mod Spill
mod Tests
pub use Rebuild.{Rebuilt, both, rest, done, Peeked}
unfoldable pub use Rebuild.{
  after_error, read_full_end, read_full, byte_read, second_state, read_second, after_first,
  rebuilt_read, after_peek, peek_reader,
}
use zip_extraction.Common.{
  ℕ, zero, suc, ◌+◌, ◌-◌, ◌%◌, Bool, true, false, ◌||◌, Option, none, some, List, [], ◌∷◌, ◌++◌,
  ltb, leb, ◌==◌, if◌then◌else◌, length, take, is_empty,
}
use zip_extraction.Common.Int.{ℤ, pos, gtb_ℤ, int64, add64}
use zip_extraction.Go.Strings.{Text, text}
use zip_extraction.Go.Io.{ReadResult, Reader}
use zip_extraction.Extraction.Errors.{
  Error, unsupported, wrap, eof, unexpected_eof, Try, ok, fail, is_eof, is_unexpected_eof, is_some,
}
use zip_extraction.Extraction.Types.{
  EntryDataRange, ArchiveMetadata, feature_encrypted_zip, feature_deflate64,
}

-- A *zip.File: what the central directory says, the results of DataOffset (none where it is an
-- error), and of Open, a reader of state `R`. The sizes are `uint64`.
pub record ZipFile (R : Type 0) : Type 0 where
  pub name : Text
  pub mode : ℕ
  pub flags : ℕ
  pub method : ℕ
  pub compressed_size64 : ℕ
  pub uncompressed_size64 : ℕ
  pub data_offset : Option ℤ
  pub opened : Try R

abbrev pub max_uint32 : ℕ
max_uint32 = 4294967295

abbrev empty_metadata : ℕ → ArchiveMetadata
empty_metadata count = record {
  entry_count = pos count;
  total_compressed_bytes = pos 0;
  total_declared_uncompressed_bytes = pos 0;
  zip64 = false;
  encrypted = false;
  multi_disk = false;
  has_deflate64_entries = false;
  entry_data_ranges = [];
}

-- fh.Flags & 0x1 != 0
unfoldable pub is_encrypted : {R : Type 0} → ZipFile R → Bool
is_encrypted fh = fh.flags % 2 == 1

unfoldable pub is_deflate64 : {R : Type 0} → ZipFile R → Bool
is_deflate64 fh = fh.method == 9

-- the range of the entry's compressed bytes, where its offset is known
data_range : {R : Type 0} → ℕ → ZipFile R → Option ℤ → List EntryDataRange
data_range i fh none = []
data_range i fh (some start) =
    record { entry_index = i; start = start; end = add64 start (int64 fh.compressed_size64) } ∷ []

-- one round of the loop over zr.File
unfoldable pub add_file : {R : Type 0} → ArchiveMetadata → ℕ → ZipFile R → ArchiveMetadata
unfolding data_range is_encrypted is_deflate64
add_file meta i fh = record meta {
  total_compressed_bytes = add64 meta.total_compressed_bytes (int64 fh.compressed_size64);
  zip64 = if ltb max_uint32 fh.uncompressed_size64 then true else meta.zip64;
  total_declared_uncompressed_bytes =
      if ltb 0 fh.uncompressed_size64
      then add64 meta.total_declared_uncompressed_bytes (int64 fh.uncompressed_size64)
      else meta.total_declared_uncompressed_bytes;
  encrypted = if is_encrypted fh then true else meta.encrypted;
  has_deflate64_entries = if is_deflate64 fh then true else meta.has_deflate64_entries;
  entry_data_ranges = meta.entry_data_ranges ++ data_range i fh fh.data_offset;
}

unfoldable pub add_files : {R : Type 0} → ArchiveMetadata → ℕ → List (ZipFile R) → ArchiveMetadata
unfolding add_file
add_files meta i [] = meta
add_files meta i (fh ∷ others) = add_files (add_file meta i fh) (suc i) others

unfoldable pub metadata : {R : Type 0} → List (ZipFile R) → ArchiveMetadata
unfolding add_files
metadata files = add_files (empty_metadata (length files)) 0 files

unfoldable pub accept :
    {R : Type 0} → List (ZipFile R) → ArchiveMetadata → Try (List (ZipFile R) × ArchiveMetadata)
accept files meta =
    if meta.encrypted
    then fail (unsupported (record { feature = feature_encrypted_zip }))
    else if meta.has_deflate64_entries
    then fail (unsupported (record { feature = feature_deflate64 }))
    else ok (files, meta)

-- A file at a path: os.Stat's size, os.Open's error, and what zip.NewReader makes of it, told its
-- size.
pub record TempFile (R : Type 0) : Type 0 where
  pub stat : Try ℤ
  pub open_err : Option Error
  pub parse : ℤ → Try (List (ZipFile R))

module _ {R : Type 0} where
  parsed : Try (List (ZipFile R)) → Try (List (ZipFile R) × ArchiveMetadata)
  unfolding metadata accept
  parsed (fail e) = fail (wrap (text "parseZip: ") e)
  parsed (ok files) = accept files (metadata files)

  open_sized : TempFile R → Try ℤ → Option Error → Try (List (ZipFile R) × ArchiveMetadata)
  unfolding parsed
  open_sized f (fail e) _ = fail (wrap (text "stat: ") e)
  open_sized f (ok size) (some e) = fail (wrap (text "open: ") e)
  open_sized f (ok size) none = parsed (f.parse size)

  -- openZip: a size that is not positive is asked of the file system.
  unfoldable pub open_zip : TempFile R → ℤ → Try (List (ZipFile R) × ArchiveMetadata)
  unfolding open_sized
  open_zip f size = open_sized f (if gtb_ℤ size (pos 0) then ok size else f.stat) f.open_err

-- the file system, over a state `S`, and the body of a download, `B`
module _ {S B : Type 0} (create_temp : Text → S → Try Text × S)
    (copy : Text → B → S → Option Error × S) (remove : Text → S → S) where
  copied : Text → Option Error × S → Try Text × S
  copied name (none, s) = (ok name, s)
  copied name (some e, s) = (fail e, remove name s)

  spill_into : Try Text × S → B → Try Text × S
  unfolding copied
  spill_into (fail e, s) body = (fail e, s)
  spill_into (ok name, s) body = copied name (copy name body s)

  -- spillToTemp
  unfoldable pub spill_to_temp : B → Text → S → Try Text × S
  unfolding spill_into
  spill_to_temp body exec_id s =
      spill_into (create_temp (text "zip-extraction-" ++ (exec_id ++ text "-*.zip")) s) body
