-- ===== src/BombDefence/LimitedReader/Transparency.antt =====
-- Below its limits a limited reader is the reader below.
use mathlib.Core.Path.{ap₂}
use zip_extraction.Common.{
  ◌∙◌, ℕ, ◌+◌, ◌≤◌, ◌<◌, ◌≡◌, refl, ap, true, false, Option, none, some, List, [], ◌∷◌, arith, All,
  length, Bool-cases, inl, inr, is_empty,
}
use zip_extraction.Common.Int.{ℤ, pos, ltb_ℤ, add64}
use zip_extraction.Go.Float.{FloatOps}
use zip_extraction.Go.Io.{ReadResult, Reader, FitsBuffer, read_each, total}
use zip_extraction.Config.{BombDefenceConfig}
use zip_extraction.Extraction.Errors.{Error}
use zip_extraction.BombDefence.LimitedReader.{
  LimitedReader, small_sample_floor_bytes, new_limited_reader, over_total, over_ratio, checked,
  after_read, limited_read_from, limited_read,
}
use zip_extraction.BombDefence.LimitedReader.Bounds.{size_limit, add64_small, length_empty}

pub limited_read_from-none :
    (fl : FloatOps) {R : Type 0} (read : Reader R) (sticky : Option Error) (lr : LimitedReader R)
    (n : ℕ)
    → sticky ≡ none
    → limited_read_from fl read sticky lr n ≡ after_read fl lr (read lr.r n).0 (read lr.r n).1
unfolding limited_read_from
limited_read_from-none fl read none lr n e = refl
limited_read_from-none fl read (some s) lr n e = cc

over_total_within :
    {R : Type 0} (lr : LimitedReader R) (count limit : ℕ)
    → lr.max_extracted_bytes ≡ pos limit
    → lr.extracted ≡ pos count
    → count ≤ limit
    → over_total lr ≡ false
unfolding over_total
over_total_within lr count limit e k h = ground arith

pub over_total_beyond :
    {R : Type 0} (lr : LimitedReader R) (count limit : ℕ)
    → lr.max_extracted_bytes ≡ pos limit
    → lr.extracted ≡ pos count
    → 0 < limit
    → limit < count
    → over_total lr ≡ true
unfolding over_total
over_total_beyond lr count limit e k p h = ground arith

over_ratio_small :
    (fl : FloatOps) {R : Type 0} (lr : LimitedReader R)
    → ltb_ℤ lr.entry_compressed_sz lr.small_sample_floor_sz ≡ true
    → over_ratio fl lr ≡ false
unfolding over_ratio
over_ratio_small fl lr h = ground arith

module _ (fl : FloatOps) {R : Type 0} (limit : ℕ) where
  -- No violation yet, `count` bytes were handed on, and the entry is too small for rule 3.
  pub record IsOpen (count : ℕ) (lr : LimitedReader R) : Type 0 where
    pub limit_eq : lr.max_extracted_bytes ≡ pos limit
    pub counted : lr.extracted ≡ pos count
    pub open_ : lr.err_sticky ≡ none
    pub small_entry : ltb_ℤ lr.entry_compressed_sz lr.small_sample_floor_sz ≡ true

  after_read-IsOpen :
      (count : ℕ) (lr : LimitedReader R) (res : ReadResult) (r' : R)
      → IsOpen count lr
      → limit < size_limit
      → length res.bytes ≤ size_limit
      → count + length res.bytes ≤ limit
      → ((after_read fl lr res r').0 ≡ res)
        × ((after_read fl lr res r').1.r ≡ r')
        × IsOpen (count + length res.bytes) (after_read fl lr res r').1
  unfolding after_read checked
  after_read-IsOpen count lr res r' o p q w = elim (Bool-cases (is_empty res.bytes)) [
    | inl e ↦ rw e (
      refl,
      refl,
      record {
        limit_eq = o.limit_eq;
        counted =
            let z : length res.bytes ≡ 0 = length_empty res.bytes e in
            rw z (rw o.counted (ground arith));
        open_ = o.open_;
        small_entry = o.small_entry;
      },
    )
    | inr e ↦
        rw (e, below_total, below_ratio)
          (
            refl,
            refl,
            record {
              limit_eq = o.limit_eq;
              counted = sum;
              open_ = o.open_;
              small_entry = o.small_entry;
            },
          )
  ]
    where
      lr1 : LimitedReader R
      lr1 = record lr { r = r'; extracted = add64 lr.extracted (pos (length res.bytes)) }

      sum : add64 lr.extracted (pos (length res.bytes)) ≡ pos (count + length res.bytes)
      sum = rw o.counted (add64_small count (length res.bytes) (omega arith) q)

      below_total : over_total lr1 ≡ false
      below_total = over_total_within lr1 (count + length res.bytes) limit o.limit_eq sum w

      below_ratio : over_ratio fl lr1 ≡ false
      below_ratio = over_ratio_small fl lr1 o.small_entry

  module _ (read : Reader R) (fits : FitsBuffer read) (small : limit < size_limit) where
    -- what one read returns and leaves, for as long as the limit is kept
    pub limited_read-IsOpen :
        (count n : ℕ) (lr : LimitedReader R)
        → IsOpen count lr
        → n ≤ size_limit
        → count + length (read lr.r n).0.bytes ≤ limit
        → ((limited_read fl read lr n).0 ≡ (read lr.r n).0)
          × ((limited_read fl read lr n).1.r ≡ (read lr.r n).1)
          × IsOpen (count + length (read lr.r n).0.bytes) (limited_read fl read lr n).1
    unfolding limited_read
    limited_read-IsOpen count n lr o h w =
        rw (limited_read_from-none fl read lr.err_sticky lr n o.open_) (
          after_read-IsOpen count lr (read lr.r n).0 (read lr.r n).1 o small
            (omega (arith, fits lr.r n)) w)

    read_each-IsOpen :
        (count : ℕ) (lr : LimitedReader R) (ns : List ℕ)
        → IsOpen count lr
        → All (λ n. n ≤ size_limit) ns
        → count + total (read_each read lr.r ns).0 ≤ limit
        → (read_each (limited_read fl read) lr ns).0 ≡ (read_each read lr.r ns).0
    unfolding read_each total
    read_each-IsOpen count lr [] o h w = refl
    read_each-IsOpen count lr (n ∷ ns) o h w =
        let (same, next, o') = limited_read-IsOpen count n lr o h.0 (omega arith) in
        ap₂ (λ x xs. x ∷ xs) same
          (read_each-IsOpen (count + length (read lr.r n).0.bytes) (limited_read fl read lr n).1 ns
              o' h.1 (rw next (omega arith))
            ∙ ap (λ r. (read_each read r ns).0) next)

-- Below the configured maximum, and for an entry of less than 64 KiB compressed, a limited reader
-- returns what the reader below returns: the same bytes and errors, read by read.
pub limited_reader_transparent :
    (fl : FloatOps) {R : Type 0} (read : Reader R) (cfg : BombDefenceConfig) (r : R)
    (compressed_size : ℤ) (limit : ℕ) (ns : List ℕ)
    → FitsBuffer read
    → cfg.max_extracted_size_bytes ≡ pos limit
    → limit < size_limit
    → ltb_ℤ compressed_size small_sample_floor_bytes ≡ true
    → All (λ n. n ≤ size_limit) ns
    → total (read_each read r ns).0 ≤ limit
    → (read_each (limited_read fl read) (new_limited_reader cfg r compressed_size) ns).0
      ≡ (read_each read r ns).0
unfolding new_limited_reader
limited_reader_transparent fl read cfg r compressed_size limit ns fits e p f h w =
    read_each-IsOpen fl limit read fits p 0 (new_limited_reader cfg r compressed_size) ns
      (record { limit_eq = e; counted = refl; open_ = refl; small_entry = f }) h (omega arith)
