-- ===== src/Extraction/ZipOpen/Tests.antt =====
-- Runs of the reader that gives the peeked bytes again, and theorems at concrete archives.
use zip_extraction.Common.{
  zero, suc, inl, inr, ◌≡◌, ◌≤◌, refl, ℕ, none, some, List, [], ◌∷◌, ◌++◌, arith, length, take,
  drop,
}
use zip_extraction.Common.Int.{pos, int64, add64}
use zip_extraction.Go.Strings.{Text, text}
use zip_extraction.Go.Io.{Reader, read_each}
use zip_extraction.Extraction.Errors.{eof, ok, is_eof, is_unexpected_eof}
use zip_extraction.Extraction.ZipOpen.{
  ZipFile, is_encrypted, is_deflate64, metadata, accept, TempFile, open_zip, read_full, both, rest,
  rebuilt_read, peek_reader,
}
use zip_extraction.Extraction.ZipOpen.Metadata.{
  IsDescribed, open_zip-IsDescribed, declared, compressed, declared, compressed,
}
use zip_extraction.Extraction.ZipOpen.Peek.{Advances, HasRead, bytes, peek_reader-rebuilt}

opened : Unit {0}
unfolding open_zip metadata accept is_encrypted is_deflate64 peek_reader read_full rebuilt_read
    read_each bytes text int64 add64 declared compressed is_eof is_unexpected_eof
opened = tt

abbrev entry : ℕ → ℕ → ZipFile Text
entry compressed declared = record {
  name = text "a.txt";
  mode = 420;
  flags = 8;
  method = 8;
  compressed_size64 = compressed;
  uncompressed_size64 = declared;
  data_offset = some (pos 30);
  opened = ok (text "abcdef");
}

abbrev entries : List (ZipFile Text)
entries = entry 3 6 ∷ entry 4 8 ∷ []

abbrev archive : TempFile Text
archive = record { stat = ok (pos 100); open_err = none; parse = λ size. ok entries }

open_zip-IsDescribed_example : IsDescribed entries (metadata entries)
unfolding opened declared compressed
open_zip-IsDescribed_example =
    open_zip-IsDescribed archive (pos 0) entries (metadata entries) refl (omega arith) (omega arith)

-- A reader that gives two bytes at most.
abbrev pairs : Reader Text
pairs r n = (
  record { bytes = take n (take 2 r); err = elim r [ [] ↦ some eof | c ∷ s ↦ none ] },
  drop n (take 2 r) ++ drop 2 r,
)

peek_reader-rebuilt_example :
    (r' : Text) × (HasRead pairs (text "abcde") (text "abc") r'
      × ((m : ℕ)
          → length (text "abc") ≤ m
          → rebuilt_read pairs (both (text "abc") (text "de")) m
            ≡ (record { bytes = text "abc"; err = none }, rest r')))
unfolding opened
peek_reader-rebuilt_example =
    peek_reader-rebuilt pairs (text "abcde") 3 b'a' (b'b' ∷ b'c' ∷ [])
      (both (text "abc") (text "de")) refl

pairs-Advances : Advances pairs
unfolding opened
pairs-Advances [] n h = inr refl
pairs-Advances (c ∷ s) (suc n) h = inl (omega arith)
pairs-Advances (c ∷ s) zero h = absurd (omega (arith, h))
