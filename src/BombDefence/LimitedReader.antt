-- ===== src/BombDefence/LimitedReader.antt =====
-- The reader that enforces rules 2 and 3 on what it hands on (bombdefence/checker.go).
pub mod Bounds
pub mod Transparency
pub mod Violations
use zip_extraction.Common.{
  ℕ, ◌*◌, Bool, true, false, not, ◌&&◌, Option, none, some, [], if◌then◌else◌, length, is_empty,
}
use zip_extraction.Common.Int.{ℤ, pos, ltb_ℤ, gtb_ℤ, add64}
use zip_extraction.Go.Strings.{text}
use zip_extraction.Go.Float.{Float64, FloatOps}
use zip_extraction.Go.Io.{ReadResult, Reader}
use zip_extraction.Config.{BombDefenceConfig}
use zip_extraction.Extraction.Errors.{Error, bomb}
use zip_extraction.BombDefence.Format.{format_exceeded, format_ratio_exceeded}

abbrev pub small_sample_floor_bytes : ℤ
small_sample_floor_bytes = pos (64 * 1024)

-- `r` is the reader below.
pub record LimitedReader (R : Type 0) : Type 0 where
  pub r : R
  pub max_extracted_bytes : ℤ
  pub max_ratio : Float64
  pub entry_compressed_sz : ℤ
  pub small_sample_floor_sz : ℤ
  pub extracted : ℤ
  pub err_sticky : Option Error

-- Each call starts its count at 0.
unfoldable pub new_limited_reader : {R : Type 0} → BombDefenceConfig → R → ℤ → LimitedReader R
new_limited_reader cfg r compressed_size = record {
  r = r;
  max_extracted_bytes = cfg.max_extracted_size_bytes;
  max_ratio = cfg.max_compression_ratio;
  entry_compressed_sz = compressed_size;
  small_sample_floor_sz = small_sample_floor_bytes;
  extracted = pos 0;
  err_sticky = none;
}

abbrev violation : {R : Type 0} → LimitedReader R → Error → ReadResult × LimitedReader R
violation lr e = (record { bytes = []; err = some e }, record lr { err_sticky = some e })

unfoldable pub over_total : {R : Type 0} → LimitedReader R → Bool
over_total lr = gtb_ℤ lr.max_extracted_bytes (pos 0) && gtb_ℤ lr.extracted lr.max_extracted_bytes

module _ (fl : FloatOps) where
  -- float64(lr.extracted) / float64(lr.entryCompressedSz)
  unfoldable pub ratio : {R : Type 0} → LimitedReader R → Float64
  ratio lr = fl.div (fl.of_int lr.extracted) (fl.of_int lr.entry_compressed_sz)

  unfoldable pub over_ratio : {R : Type 0} → LimitedReader R → Bool
  over_ratio lr =
      (fl.lt (fl.of_int (pos 0)) lr.max_ratio
        && (gtb_ℤ lr.entry_compressed_sz (pos 0)
            && not (ltb_ℤ lr.entry_compressed_sz lr.small_sample_floor_sz)))
      && fl.lt lr.max_ratio (ratio lr)

  -- what `Read` does with what the reader below returned, `lr` counting it already
  unfoldable pub checked :
      {R : Type 0} → LimitedReader R → ReadResult → ReadResult × LimitedReader R
  unfolding over_total over_ratio ratio
  checked lr res =
      if over_total lr
      then violation lr (
          bomb (record {
            rule = 2;
            reason =
                format_exceeded (text "cumulative extracted size") lr.extracted
                  lr.max_extracted_bytes;
          }))
      else if over_ratio lr
      then violation lr
          (bomb (record { rule = 3; reason = format_ratio_exceeded fl (ratio lr) lr.max_ratio }))
      else (res, lr)

  -- Read after the reader below has returned `res` and become `r'`
  unfoldable pub after_read :
      {R : Type 0} → LimitedReader R → ReadResult → R → ReadResult × LimitedReader R
  unfolding checked
  after_read lr res r' =
      if is_empty res.bytes
      then (res, record lr { r = r' })
      else checked (record lr { r = r'; extracted = add64 lr.extracted (pos (length res.bytes)) })
          res

  -- the sticky error is returned with no call of the reader below
  pub limited_read_from :
      {R : Type 0} → Reader R → Option Error → LimitedReader R → ℕ → ReadResult × LimitedReader R
  limited_read_from read (some e) lr n = (record { bytes = []; err = some e }, lr)
  limited_read_from read none lr n = let (res, r') = read lr.r n in after_read lr res r'

  unfoldable pub limited_read : {R : Type 0} → Reader R → Reader (LimitedReader R)
  unfolding limited_read_from after_read
  limited_read read lr n = limited_read_from read lr.err_sticky lr n
