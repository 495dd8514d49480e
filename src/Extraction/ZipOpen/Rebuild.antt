-- ===== src/Extraction/ZipOpen/Rebuild.antt =====
-- services/zip-extraction/internal/extraction/zip_open.go: io.ReadFull and the reader that gives the
-- peeked bytes again.
use zip_extraction.Common.{
  ℕ, zero, suc, ◌-◌, ◌||◌, Option, none, some, [], ◌∷◌, ◌++◌, leb, ◌==◌, if◌then◌else◌, length,
  take, is_empty,
}
use zip_extraction.Go.Strings.{Text}
use zip_extraction.Go.Io.{ReadResult, Reader}
use zip_extraction.Extraction.Errors.{
  Error, eof, unexpected_eof, Try, ok, fail, is_eof, is_unexpected_eof, is_some,
}

-- the result of io.ReadFull once a read has given an error, for all that was read
unfoldable pub after_error : Text → Error → Option Error
after_error [] e = some e
after_error (b ∷ acc) eof = some unexpected_eof
after_error (b ∷ acc) e = some e

unfoldable pub read_full_end : ℕ → Text → ReadResult → Error → ReadResult
unfolding after_error
read_full_end room acc res e = record {
  bytes = acc ++ res.bytes;
  err = if leb room (length res.bytes) then none else after_error (acc ++ res.bytes) e;
}

-- io.ReadFull into a buffer with room for `room` more bytes, `acc` being there; `calls` bounds the
-- number of reads.
unfoldable pub read_full : {R : Type 0} → Reader R → ℕ → ℕ → Text → R → ReadResult × R
unfolding read_full_end
read_full read zero room acc r = (record { bytes = acc; err = none }, r)
read_full read (suc calls) room acc r =
    if room == 0
    then (record { bytes = acc; err = none }, r)
    else let (res, r') = read r room in
      let more = read_full read calls (room - length res.bytes) (acc ++ res.bytes) r' in
      elim res.err [ none ↦ more | some e ↦ (read_full_end room acc res e, r') ]

-- Read of a `byteReader`, which stays as it is.
unfoldable pub byte_read : Text → ℕ → ReadResult
byte_read [] n = record { bytes = []; err = some eof }
byte_read (x ∷ b) n = record {
  bytes = take n (x ∷ b);
  err = if leb (length (x ∷ b)) n then some eof else none;
}

-- io.MultiReader(byteReader(peek), r), by the readers that are left
pub data Rebuilt (R : Type 0) : Type 0 where
  both : Text → R → Rebuilt R
  rest : R → Rebuilt R
  done : Rebuilt R

module _ {R : Type 0} (read : Reader R) where
  -- the second reader is the last, so that its io.EOF is handed on
  unfoldable pub second_state : Option Error → R → Rebuilt R
  second_state (some eof) r = done
  second_state _ r = rest r

  unfoldable pub read_second : R → ℕ → ReadResult × Rebuilt R
  unfolding second_state
  read_second r n = let (res, r') = read r n in (res, second_state res.err r')

  -- what `Read` makes of the answer of the first reader
  unfoldable pub after_first : ReadResult → Text → R → ℕ → ReadResult × Rebuilt R
  unfolding read_second
  after_first res b r n =
      if is_some res.err
      then if is_empty res.bytes
        then read_second r n
        else (record { bytes = res.bytes; err = none }, rest r)
      else (res, both b r)

  unfoldable pub rebuilt_read : Rebuilt R → ℕ → ReadResult × Rebuilt R
  unfolding byte_read after_first
  rebuilt_read (both b r) n = after_first (byte_read b n) b r n
  rebuilt_read (rest r) n = read_second r n
  rebuilt_read done n = (record { bytes = []; err = some eof }, done)

  abbrev pub Peeked : Type 0
  Peeked = Text × Rebuilt R

  unfoldable pub after_peek : Option Error → Text → R → Try Peeked
  after_peek none bytes r = ok (bytes, both bytes r)
  after_peek (some e) bytes r =
      if is_some (is_unexpected_eof e) || is_some (is_eof e)
      then ok (bytes, both bytes r)
      else fail e

  -- peekReader
  unfoldable pub peek_reader : R → ℕ → Try Peeked
  unfolding read_full after_peek
  peek_reader r n = let (res, r') = read_full read n n [] r in after_peek res.err res.bytes r'
