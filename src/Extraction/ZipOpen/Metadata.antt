-- ===== src/Extraction/ZipOpen/Metadata.antt =====
-- What the metadata of an archive says of its entries.
use zip_extraction.Common.{
  ℕ, zero, suc, ◌+◌, ◌<◌, ◌≡◌, refl, Bool, true, false, Option, none, some, List, [], ◌∷◌, arith,
  length, All, ltb, ltb_iff, Bool-cases, inl, inr, if◌then◌else◌, ◌∙◌, ap,
}
use zip_extraction.Common.Int.{ℤ, pos, two63, int64, add64}
use zip_extraction.Extraction.Errors.{Error, Try, ok, fail}
use zip_extraction.Extraction.Types.{ArchiveMetadata}
use zip_extraction.Extraction.ZipOpen.{
  ZipFile, is_encrypted, is_deflate64, add_file, add_files, metadata, accept, TempFile, open_zip,
  open_sized, parsed,
}

-- The entry is neither encrypted nor compressed by Deflate64.
abbrev pub IsSupported : {R : Type 0} → ZipFile R → Type 0
IsSupported fh = (is_encrypted fh ≡ false) × (is_deflate64 fh ≡ false)

-- A flag that is not set at the end was never set.
flag_off : (b old : Bool) → (if b then true else old) ≡ false → (b ≡ false) × (old ≡ false)
flag_off true old h = (h, absurd (ground arith))
flag_off false old h = (refl, h)

IsSupported-of_flags :
    {R : Type 0} (meta : ArchiveMetadata) (i : ℕ) (files : List (ZipFile R))
    → (add_files meta i files).encrypted ≡ false
    → (add_files meta i files).has_deflate64_entries ≡ false
    → ((meta.encrypted ≡ false) × (meta.has_deflate64_entries ≡ false)) × All IsSupported files
unfolding add_files add_file
IsSupported-of_flags meta i [] h k = ((h, k), tt)
IsSupported-of_flags meta i (fh ∷ rest) h k =
    let ((e, d), all) = IsSupported-of_flags (add_file meta i fh) (suc i) rest h k in
    let enc = flag_off (is_encrypted fh) meta.encrypted e in
    let def = flag_off (is_deflate64 fh) meta.has_deflate64_entries d in
    ((enc.1, def.1), ((enc.0, def.0), all))

accept-IsSupported :
    {R : Type 0} (files fs : List (ZipFile R)) (meta : ArchiveMetadata)
    → accept files (metadata files) ≡ ok (fs, meta)
    → (fs ≡ files) × ((meta ≡ metadata files) × All IsSupported files)
unfolding accept metadata
accept-IsSupported files fs meta h = elim (Bool-cases (metadata files).encrypted) [
  | inl e ↦ absurd (ground arith)
  | inr e ↦ elim (Bool-cases (metadata files).has_deflate64_entries) [
    | inl d ↦ absurd (ground arith)
    | inr d ↦ (ground arith, (ground arith, (IsSupported-of_flags _ 0 files e d).1))
  ]
]

parsed-IsSupported :
    {R : Type 0} (parse : Try (List (ZipFile R))) (files : List (ZipFile R))
    (meta : ArchiveMetadata)
    → parsed parse ≡ ok (files, meta)
    → (meta ≡ metadata files) × All IsSupported files
unfolding parsed
parsed-IsSupported (fail e) files meta h = absurd (ground arith)
parsed-IsSupported (ok fs) files meta h =
    let (same, (m, all)) = accept-IsSupported fs files meta h in rw same (m, all)

open_sized-IsSupported :
    {R : Type 0} (f : TempFile R) (size : Try ℤ) (open_err : Option Error)
    (files : List (ZipFile R)) (meta : ArchiveMetadata)
    → open_sized f size open_err ≡ ok (files, meta)
    → (meta ≡ metadata files) × All IsSupported files
unfolding open_sized
open_sized-IsSupported f (fail e) err files meta h = absurd (ground arith)
open_sized-IsSupported f (ok size) (some e) files meta h = absurd (ground arith)
open_sized-IsSupported f (ok size) none files meta h =
    parsed-IsSupported (f.parse size) files meta h

pub open_zip-IsSupported :
    {R : Type 0} (f : TempFile R) (size : ℤ) (files : List (ZipFile R)) (meta : ArchiveMetadata)
    → open_zip f size ≡ ok (files, meta)
    → (meta ≡ metadata files) × All IsSupported files
unfolding open_zip
open_zip-IsSupported f size files meta h = open_sized-IsSupported f _ f.open_err files meta h

unfoldable pub declared : {R : Type 0} → List (ZipFile R) → ℕ
declared [] = 0
declared (fh ∷ rest) = fh.uncompressed_size64 + declared rest

unfoldable pub compressed : {R : Type 0} → List (ZipFile R) → ℕ
compressed [] = 0
compressed (fh ∷ rest) = fh.compressed_size64 + compressed rest

add_small : (a b : ℕ) → a + b < two63 → add64 (pos a) (int64 b) ≡ pos (a + b)
unfolding add64 int64
add_small a b h = ground arith

add_skip :
    (a b : ℕ) → a + b < two63 → (if ltb 0 b then add64 (pos a) (int64 b) else pos a) ≡ pos (a + b)
add_skip a zero h = ground arith
add_skip a (suc b) h = rw ((ltb_iff 0 (suc b)).1 (omega arith)) (add_small a (suc b) h)

add_files-declared :
    {R : Type 0} (files : List (ZipFile R)) (meta : ArchiveMetadata) (i a : ℕ)
    → meta.total_declared_uncompressed_bytes ≡ pos a
    → a + declared files < two63
    → (add_files meta i files).total_declared_uncompressed_bytes ≡ pos (a + declared files)
unfolding add_files add_file declared
add_files-declared [] meta i a e h = ground arith
add_files-declared (fh ∷ rest) meta i a e h =
    add_files-declared rest (add_file meta i fh) (suc i) (a + fh.uncompressed_size64)
      (rw e (add_skip a fh.uncompressed_size64 (omega (arith, h)))) (omega (arith, h))
    ∙ ap pos (omega arith)

add_files-compressed :
    {R : Type 0} (files : List (ZipFile R)) (meta : ArchiveMetadata) (i a : ℕ)
    → meta.total_compressed_bytes ≡ pos a
    → a + compressed files < two63
    → (add_files meta i files).total_compressed_bytes ≡ pos (a + compressed files)
unfolding add_files add_file compressed
add_files-compressed [] meta i a e h = ground arith
add_files-compressed (fh ∷ rest) meta i a e h =
    add_files-compressed rest (add_file meta i fh) (suc i) (a + fh.compressed_size64)
      (rw e (add_small a fh.compressed_size64 (omega (arith, h)))) (omega (arith, h))
    ∙ ap pos (omega arith)

-- Where the sums of the entries' sizes are below 2^63, the totals of the metadata are these sums.
pub metadata-totals :
    {R : Type 0} (files : List (ZipFile R))
    → declared files < two63
    → compressed files < two63
    → ((metadata files).total_declared_uncompressed_bytes ≡ pos (declared files))
      × ((metadata files).total_compressed_bytes ≡ pos (compressed files))
unfolding metadata
metadata-totals files h k = (
  add_files-declared files _ 0 0 refl (omega (arith, h)) ∙ ap pos (omega arith),
  add_files-compressed files _ 0 0 refl (omega (arith, k)) ∙ ap pos (omega arith),
)

add_files-entry_count :
    {R : Type 0} (files : List (ZipFile R)) (meta : ArchiveMetadata) (i : ℕ)
    → (add_files meta i files).entry_count ≡ meta.entry_count
unfolding add_files add_file
add_files-entry_count [] meta i = refl
add_files-entry_count (fh ∷ rest) meta i = add_files-entry_count rest (add_file meta i fh) (suc i)

metadata-entry_count :
    {R : Type 0} (files : List (ZipFile R)) → (metadata files).entry_count ≡ pos (length files)
unfolding metadata
metadata-entry_count files = add_files-entry_count files _ 0

-- What PreCheck goes by is true of the entries.
pub record IsDescribed {R : Type 0} (files : List (ZipFile R)) (meta : ArchiveMetadata)
    : Type 0 where
  pub supported : All IsSupported files
  pub count : meta.entry_count ≡ pos (length files)
  pub declared_total : meta.total_declared_uncompressed_bytes ≡ pos (declared files)
  pub compressed_total : meta.total_compressed_bytes ≡ pos (compressed files)

-- An archive that is opened, and whose entries declare sizes of which the sums are below 2^63: none of
-- its entries is encrypted or compressed by Deflate64, and the metadata have their number and these sums.
pub open_zip-IsDescribed :
    {R : Type 0} (f : TempFile R) (size : ℤ) (files : List (ZipFile R)) (meta : ArchiveMetadata)
    → open_zip f size ≡ ok (files, meta)
    → declared files < two63
    → compressed files < two63
    → IsDescribed files meta
open_zip-IsDescribed f size files meta opened h k =
    let (same, supported) = open_zip-IsSupported f size files meta opened in
    let (declared_sum, compressed_sum) = metadata-totals files h k in
    record {
      supported = supported;
      count = ap (λ m. m.entry_count) same ∙ metadata-entry_count files;
      declared_total = ap (λ m. m.total_declared_uncompressed_bytes) same ∙ declared_sum;
      compressed_total = ap (λ m. m.total_compressed_bytes) same ∙ compressed_sum;
    }
