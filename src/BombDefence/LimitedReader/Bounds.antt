-- ===== src/BombDefence/LimitedReader/Bounds.antt =====
-- How much a limited reader hands on, and that it changes nothing below its limits.
use zip_extraction.Common.{
  ℕ, ◌+◌, ◌^◌, ◌≤◌, ◌<◌, ◌≡◌, inl, inr, refl, true, Option, none, some, List, [], ◌∷◌, arith, All,
  length, Bool-cases, is_empty,
}
use zip_extraction.Common.Int.{ℤ, pos, add64}
use zip_extraction.Go.Strings.{Text}
use zip_extraction.Go.Float.{FloatOps}
use zip_extraction.Go.Io.{ReadResult, Reader, FitsBuffer, read_each, total}
use zip_extraction.Config.{BombDefenceConfig}
use zip_extraction.Extraction.Errors.{Error}
use zip_extraction.BombDefence.LimitedReader.{
  LimitedReader, new_limited_reader, over_total, over_ratio, checked, after_read, limited_read_from,
  limited_read,
}

-- Sizes for which the counter cannot wrap around.
abbrev pub size_limit : ℕ
size_limit = 2 ^ 62

pub add64_small : (a b : ℕ) → a < size_limit → b ≤ size_limit → add64 (pos a) (pos b) ≡ pos (a + b)
unfolding add64
add64_small a b h k = ground arith

pub length_empty : (s : Text) → is_empty s ≡ true → length s ≡ 0
length_empty [] h = refl
length_empty (c ∷ s) h = cc

module _ (fl : FloatOps) {R : Type 0} (limit : ℕ) where
  -- `count` bytes were handed on.
  record Tracks (count : ℕ) (lr : LimitedReader R) : Type 0 where
    limit_eq : lr.max_extracted_bytes ≡ pos limit
    within : count ≤ limit
    counted : lr.err_sticky ≡ none → lr.extracted ≡ pos count

  checked-Tracks :
      (count : ℕ) (lr : LimitedReader R) (res : ReadResult)
      → 0 < limit
      → lr.max_extracted_bytes ≡ pos limit
      → lr.extracted ≡ pos (count + length res.bytes)
      → count ≤ limit
      → Tracks (count + length (checked fl lr res).0.bytes) (checked fl lr res).1
  unfolding checked
  checked-Tracks count lr res p c e w = elim (Bool-cases (over_total lr)) [
    | inl over ↦ rw over (record { limit_eq = c; within = omega arith; counted = λ q. cc })
    | inr under ↦ rw under (elim (Bool-cases (over_ratio fl lr)) [
      | inl over ↦ rw over (record { limit_eq = c; within = omega arith; counted = λ q. cc })
      | inr below ↦
          rw below
            (record { limit_eq = c; within = unfold over_total in ground arith; counted = λ q. e })
    ])
  ]

  after_read-Tracks :
      (count : ℕ) (lr : LimitedReader R) (res : ReadResult) (r' : R)
      → 0 < limit
      → limit < size_limit
      → length res.bytes ≤ size_limit
      → lr.err_sticky ≡ none
      → Tracks count lr
      → Tracks (count + length (after_read fl lr res r').0.bytes) (after_read fl lr res r').1
  unfolding after_read
  after_read-Tracks count lr res r' p q n s t = elim (Bool-cases (is_empty res.bytes)) [
    | inl e ↦ rw e (
        let z : length res.bytes ≡ 0 = length_empty res.bytes e in
        rw z (record {
          limit_eq = t.limit_eq;
          within = omega (arith, t.within);
          counted = λ k. rw (t.counted k) (ground arith);
        }))
    | inr e ↦ rw e (
        checked-Tracks count _ res p t.limit_eq
          (rw (t.counted s) (add64_small count (length res.bytes) (omega (arith, t.within)) n))
          t.within)
  ]

  module _ (read : Reader R) (fits : FitsBuffer read) (positive : 0 < limit)
      (small : limit < size_limit) where
    limited_read-Tracks :
        (sticky : Option Error) (count n : ℕ) (lr : LimitedReader R)
        → lr.err_sticky ≡ sticky
        → n ≤ size_limit
        → Tracks count lr
        → Tracks
            (count + length (limited_read_from fl read sticky lr n).0.bytes)
            (limited_read_from fl read sticky lr n).1
    unfolding limited_read_from
    limited_read-Tracks (some e) count n lr s h t = record {
      limit_eq = t.limit_eq;
      within = omega (arith, t.within);
      counted = λ k. cc;
    }
    limited_read-Tracks none count n lr s h t =
        after_read-Tracks count lr (read lr.r n).0 (read lr.r n).1 positive small
          (omega (arith, fits lr.r n)) s t

    read_each-Tracks :
        (count : ℕ) (lr : LimitedReader R) (ns : List ℕ)
        → All (λ n. n ≤ size_limit) ns
        → Tracks count lr
        → count + total (read_each (limited_read fl read) lr ns).0 ≤ limit
    unfolding read_each total limited_read
    read_each-Tracks count lr [] h t = omega (arith, t.within)
    read_each-Tracks count lr (n ∷ ns) h t = omega (
      arith,
      read_each-Tracks (count + length (limited_read fl read lr n).0.bytes)
          (limited_read fl read lr n).1 ns h.1
          (limited_read-Tracks lr.err_sticky count n lr refl h.0 t),
    )

-- Whatever buffers it is read with, a limited reader hands on no more bytes than the configured
-- maximum, if the reader below keeps to io.Reader's contract and sizes are below 2^62.
pub limited_reader_bound :
    (fl : FloatOps) {R : Type 0} (read : Reader R) (cfg : BombDefenceConfig) (r : R)
    (compressed_size : ℤ) (limit : ℕ) (ns : List ℕ)
    → FitsBuffer read
    → cfg.max_extracted_size_bytes ≡ pos limit
    → 0 < limit
    → limit < size_limit
    → All (λ n. n ≤ size_limit) ns
    → total (read_each (limited_read fl read) (new_limited_reader cfg r compressed_size) ns).0
      ≤ limit
unfolding new_limited_reader
limited_reader_bound fl read cfg r compressed_size limit ns fits e p q h = omega (
  arith,
  read_each-Tracks fl limit read fits p q 0 (new_limited_reader cfg r compressed_size) ns h
      (record { limit_eq = e; within = omega arith; counted = λ k. refl }),
)
