-- ===== src/BombDefence/LimitedReader/Violations.antt =====
-- Above its maximum a limited reader reports rule 2. Each entry of an archive has a reader, and a
-- count, of its own.
use zip_extraction.Common.{
  ℕ, zero, suc, ◌+◌, ◌*◌, ◌≤◌, ◌<◌, ◌≡◌, refl, Bool, true, false, none, some, List, [], ◌∷◌, arith,
  All, any, length, Bool-cases, inl, inr, is_empty, leb, ◌==◌,
}
use zip_extraction.Common.Int.{ℤ, pos, ltb_ℤ, add64}
use zip_extraction.Go.Strings.{Text}
use zip_extraction.Go.Float.{FloatOps}
use zip_extraction.Go.Io.{ReadResult, Reader, FitsBuffer, read_each, total}
use zip_extraction.Config.{BombDefenceConfig}
use zip_extraction.Extraction.Errors.{Error, bomb}
use zip_extraction.BombDefence.LimitedReader.{
  LimitedReader, small_sample_floor_bytes, new_limited_reader, checked, after_read, limited_read,
}
use zip_extraction.BombDefence.LimitedReader.Bounds.{size_limit, add64_small}
use zip_extraction.BombDefence.LimitedReader.Transparency.{
  IsOpen, limited_read-IsOpen, limited_read_from-none, over_total_beyond,
  limited_reader_transparent,
}

abbrev rule2_error : Error → Bool
rule2_error (bomb b) = b.rule == 2
rule2_error _ = false

-- a violation of rule 2, with no byte handed on
abbrev pub is_rule2 : ReadResult → Bool
is_rule2 res = elim res.err [ none ↦ false | some e ↦ rule2_error e ]

nonempty : (s : Text) → 0 < length s → is_empty s ≡ false
nonempty [] h = absurd (omega arith)
nonempty (c ∷ s) h = refl

module _ (fl : FloatOps) {R : Type 0} (limit : ℕ) where
  after_read-rule2 :
      (count : ℕ) (lr : LimitedReader R) (res : ReadResult) (r' : R)
      → IsOpen fl limit count lr
      → count < size_limit
      → 0 < limit
      → count ≤ limit
      → length res.bytes ≤ size_limit
      → limit < count + length res.bytes
      → is_rule2 (after_read fl lr res r').0 ≡ true
  unfolding after_read checked
  after_read-rule2 count lr res r' o s p c q w =
      rw
        (
          nonempty res.bytes (omega arith),
          over_total_beyond
              (record lr { r = r'; extracted = add64 lr.extracted (pos (length res.bytes)) })
              (count + length res.bytes) limit o.limit_eq
              (rw o.counted (add64_small count (length res.bytes) s q)) p w,
        )
        refl

  module _ (read : Reader R) (fits : FitsBuffer read) (small : limit < size_limit) where
    limited_read-rule2 :
        (count n : ℕ) (lr : LimitedReader R)
        → IsOpen fl limit count lr
        → 0 < limit
        → count ≤ limit
        → n ≤ size_limit
        → limit < count + length (read lr.r n).0.bytes
        → is_rule2 (limited_read fl read lr n).0 ≡ true
    unfolding limited_read
    limited_read-rule2 count n lr o p c h w =
        rw (limited_read_from-none fl read lr.err_sticky lr n o.open_) (
          after_read-rule2 count lr (read lr.r n).0 (read lr.r n).1 o (omega arith) p c
            (omega (arith, fits lr.r n)) w)

    read_each-rule2 :
        (count : ℕ) (lr : LimitedReader R) (ns : List ℕ)
        → IsOpen fl limit count lr
        → 0 < limit
        → count ≤ limit
        → All (λ n. n ≤ size_limit) ns
        → limit < count + total (read_each read lr.r ns).0
        → any is_rule2 (read_each (limited_read fl read) lr ns).0 ≡ true
    unfolding read_each total
    read_each-rule2 count lr [] o p c h w = absurd (omega arith)
    read_each-rule2 count lr (n ∷ ns) o p c h w =
        elim (Bool-cases (leb (count + length (read lr.r n).0.bytes) limit)) [
          | inl within ↦
              let (same, next, o') =
                limited_read-IsOpen fl limit read fits small count n lr o h.0 (ground arith) in
              let later =
                read_each-rule2 (count + length (read lr.r n).0.bytes) (limited_read fl read lr n).1
                  ns o' p (ground arith) h.1 (rw next (omega arith)) in
              ground (arith, later)
          | inr beyond ↦ ground (arith, limited_read-rule2 count n lr o p c h.0 (ground arith))
        ]

-- Where the stream of an entry of less than 64 KiB compressed is longer than the configured maximum,
-- one of the reads reports a violation of rule 2.
pub limited_reader_rule2 :
    (fl : FloatOps) {R : Type 0} (read : Reader R) (cfg : BombDefenceConfig) (r : R)
    (compressed_size : ℤ) (limit : ℕ) (ns : List ℕ)
    → FitsBuffer read
    → cfg.max_extracted_size_bytes ≡ pos limit
    → 0 < limit
    → limit < size_limit
    → ltb_ℤ compressed_size small_sample_floor_bytes ≡ true
    → All (λ n. n ≤ size_limit) ns
    → limit < total (read_each read r ns).0
    → any is_rule2
        (read_each (limited_read fl read) (new_limited_reader cfg r compressed_size) ns).0
      ≡ true
unfolding new_limited_reader
limited_reader_rule2 fl read cfg r compressed_size limit ns fits e q p f h w =
    read_each-rule2 fl limit read fits p 0 (new_limited_reader cfg r compressed_size) ns
      (record { limit_eq = e; counted = refl; open_ = refl; small_entry = f }) q (omega arith) h
      (omega arith)

-- The bytes that the readers of an archive's entries hand on, each entry by its stream and the
-- buffers that it is read with.
module _ (fl : FloatOps) {R : Type 0} (read : Reader R) (cfg : BombDefenceConfig)
    (compressed_size : ℤ) where
  pub archive_total : List (R × List ℕ) → ℕ
  archive_total [] = 0
  archive_total ((r, ns) ∷ entries) =
      total (read_each (limited_read fl read) (new_limited_reader cfg r compressed_size) ns).0
      + archive_total entries

pub copies {ℓ} : {A : Type ℓ} → ℕ → A → List A
copies zero a = []
copies (suc k) a = a ∷ copies k a

-- The maximum of rule 2 holds for each entry and not for the archive: of `k` entries whose streams
-- have just the maximum, all bytes are handed on, `k` times the maximum.
pub rule2_per_entry :
    (fl : FloatOps) {R : Type 0} (read : Reader R) (cfg : BombDefenceConfig) (r : R)
    (compressed_size : ℤ) (limit : ℕ) (ns : List ℕ) (k : ℕ)
    → FitsBuffer read
    → cfg.max_extracted_size_bytes ≡ pos limit
    → limit < size_limit
    → ltb_ℤ compressed_size small_sample_floor_bytes ≡ true
    → All (λ n. n ≤ size_limit) ns
    → total (read_each read r ns).0 ≡ limit
    → archive_total fl read cfg compressed_size (copies k (r, ns)) ≡ k * limit
unfolding archive_total copies
rule2_per_entry fl read cfg r compressed_size limit ns zero fits e p f h w = omega arith
rule2_per_entry fl read cfg r compressed_size limit ns (suc k) fits e p f h w =
    rw
      (limited_reader_transparent fl read cfg r compressed_size limit ns fits e p f h (omega arith))
      (omega (arith, rule2_per_entry fl read cfg r compressed_size limit ns k fits e p f h w))
