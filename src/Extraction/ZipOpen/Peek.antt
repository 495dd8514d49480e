-- ===== src/Extraction/ZipOpen/Peek.antt =====
-- What the peeked reader gives again.
use zip_extraction.Common.{
  ◌⊎◌, length-append, appends, ◌==◌, ℕ, zero, suc, ◌+◌, ◌-◌, ◌≤◌, ◌<◌, ◌≡◌, refl, true, false,
  Option, none, some, List, [], ◌∷◌, ◌++◌, arith, All, leb, leb_iff, map, take_all, ◌==◌, length,
  take, Bool-cases, if_intro, Option-cases, inl, inr, ap, ◌∙◌,
}
use zip_extraction.Go.Strings.{Text}
use zip_extraction.Go.Io.{ReadResult, Reader, read_each}
use zip_extraction.Extraction.Errors.{Error, eof, is_some, ok}
use zip_extraction.Extraction.ZipOpen.{
  after_error, read_full_end, read_full, byte_read, Rebuilt, both, rest, rebuilt_read, peek_reader,
  after_peek, after_first,
}

-- the bytes of some reads, one after the other
unfoldable pub bytes : List ReadResult → Text
bytes [] = []
bytes (res ∷ more) = res.bytes ++ bytes more

-- `b` is what some reads gave from `r` on, and `r'` is the reader after them.
abbrev pub HasRead : {R : Type 0} → Reader R → R → Text → R → Type 0
HasRead read r b r' =
    (sizes : List ℕ) × ((bytes (read_each read r sizes).0 ≡ b) × ((read_each read r sizes).1 ≡ r'))

module _ {R : Type 0} (read : Reader R) where
  HasRead-cons :
      (r : R) (n : ℕ) (b : Text) (r' : R)
      → HasRead read (read r n).1 b r'
      → HasRead read r ((read r n).0.bytes ++ b) r'
  unfolding read_each bytes
  HasRead-cons r n b r' (sizes, (e, s)) = (n ∷ sizes, (ap (λ t. (read r n).0.bytes ++ t) e, s))

  -- what is read into a buffer that holds `acc`
  abbrev Fills : Text → R → Text → R → Type 0
  Fills acc r filled r' = (b : Text) × (HasRead read r b r' × (filled ≡ acc ++ b))

  Fills-none : (acc : Text) (r : R) → Fills acc r acc r
  unfolding read_each bytes
  Fills-none acc r = ([], (([], (refl, refl)), simp appends))

  Fills-cons :
      (acc : Text) (r : R) (n : ℕ) (filled : Text) (r' : R)
      → Fills (acc ++ (read r n).0.bytes) (read r n).1 filled r'
      → Fills acc r filled r'
  Fills-cons acc r n filled r' (b, (h, e)) =
      ((read r n).0.bytes ++ b, (HasRead-cons r n b r' h, rw e (simp appends)))

  read_full-Fills :
      (calls room : ℕ) (acc : Text) (r : R)
      → Fills acc r (read_full read calls room acc r).0.bytes (read_full read calls room acc r).1
  unfolding read_full
  read_full-Fills zero room acc r = Fills-none acc r
  read_full-Fills (suc calls) room acc r =
      if_intro {A = ReadResult × R} (λ got. Fills acc r got.0.bytes got.1) (room == 0)
        (Fills-none acc r)
        (elim (Option-cases (read r room).0.err) [
          | inl e ↦ rw e (
              Fills-cons acc r room _ _ (
                read_full-Fills calls (room - length (read r room).0.bytes)
                  (acc ++ (read r room).0.bytes) (read r room).1))
          | inr (x, e) ↦ rw e (
              Fills-cons acc r room _ _ (Fills-none (acc ++ (read r room).0.bytes) (read r room).1))
        ])

  after_peek-both :
      (err : Option Error) (b : Text) (r' : R) (b' : Text) (rb : Rebuilt R)
      → after_peek read err b r' ≡ ok (b', rb)
      → (b' ≡ b) × (rb ≡ both b r')
  unfolding after_peek
  after_peek-both none b r' b' rb h = (ground arith, ground arith)
  after_peek-both (some e) b r' b' rb h = (ground arith, ground arith)

  read_first :
      (x : ℕ) (b : Text) (r' : R) (n : ℕ)
      → length (x ∷ b) ≤ n
      → rebuilt_read read (both (x ∷ b) r') n ≡ (record { bytes = x ∷ b; err = none }, rest r')
  unfolding rebuilt_read byte_read after_first
  read_first x b r' n h = rw ((leb_iff (length (x ∷ b)) n).1 h, take_all n (x ∷ b) h) refl

  -- The bytes that are peeked are those that some reads give, and the rebuilt reader loses none of
  -- them: read with a buffer that has room for them, it gives them all first, and then goes on with
  -- the reader as those reads left it.
  pub peek_reader-rebuilt :
      (r : R) (n : ℕ) (x : ℕ) (b : Text) (rb : Rebuilt R)
      → peek_reader read r n ≡ ok (x ∷ b, rb)
      → (r' : R) × (HasRead read r (x ∷ b) r'
          × ((m : ℕ)
              → length (x ∷ b) ≤ m
              → rebuilt_read read rb m ≡ (record { bytes = x ∷ b; err = none }, rest r')))
  unfolding peek_reader
  peek_reader-rebuilt r n x b rb h =
      let full = read_full read n n [] r in
      let (got, (reads, e)) = read_full-Fills n n [] r in
      let (same, is_both) = after_peek-both full.0.err full.0.bytes full.1 (x ∷ b) rb h in
      (full.1, (rw (same ∙ e) reads, λ m k. rw (is_both, ← same) (read_first x b full.1 m k)))

  leb-false : (a n : ℕ) → n < a → leb a n ≡ false
  leb-false a n h = ground arith

  read_short :
      (b : Text) (r : R) (n : ℕ)
      → n < length b
      → rebuilt_read read (both b r) n ≡ (record { bytes = take n b; err = none }, both b r)
  unfolding rebuilt_read byte_read after_first
  read_short [] r n h = absurd (omega (arith, h))
  read_short (x ∷ b) r n h = rw (leb-false (length (x ∷ b)) n h) refl

  -- A buffer shorter than the peeked bytes never gets past them: each read gives their beginning
  -- again.
  pub rebuilt_read-repeats :
      (b : Text) (r : R) (sizes : List ℕ)
      → All (λ n. n < length b) sizes
      → read_each (rebuilt_read read) (both b r) sizes
        ≡ (map (λ n. record { bytes = take n b; err = none }) sizes, both b r)
  unfolding read_each
  rebuilt_read-repeats b r [] h = refl
  rebuilt_read-repeats b r (n ∷ sizes) h =
      rw (read_short b r n h.0, rebuilt_read-repeats b r sizes h.1) refl

-- A read into a buffer that is not empty gives a byte or an error.
abbrev pub Advances : {R : Type 0} → Reader R → Type 0
Advances {R} read =
    (r : R) (n : ℕ) → 1 ≤ n → (1 ≤ length (read r n).0.bytes) ⊎ (is_some (read r n).0.err ≡ true)

-- the buffer is full, or there is an error
abbrev Ended : ℕ → ReadResult → Type 0
Ended size res = (size ≤ length res.bytes) ⊎ (is_some res.err ≡ true)

after_error_some : (acc : Text) (e : Error) → is_some (after_error acc e) ≡ true
unfolding after_error
after_error_some [] e = refl
after_error_some (b ∷ acc) eof = refl
after_error_some (b ∷ acc) _ = refl

read_full_end-Ended :
    (room : ℕ) (acc : Text) (res : ReadResult) (e : Error)
    → Ended (length acc + room) (read_full_end room acc res e)
unfolding read_full_end
read_full_end-Ended room acc res e = elim (Bool-cases (leb room (length res.bytes))) [
  | inl full ↦
      inl (omega (arith, (leb_iff room (length res.bytes)).0 full, length-append acc res.bytes))
  | inr short ↦ inr (rw short (after_error_some (acc ++ res.bytes) e))
]

got_byte : (n : ℕ) (err : Option Error) → err ≡ none → (1 ≤ n) ⊎ (is_some err ≡ true) → 1 ≤ n
got_byte n none e (inl h) = h
got_byte n none e (inr s) = absurd (ground arith)
got_byte n (some x) e h = absurd (ground arith)

Ended-le : (m n : ℕ) (res : ReadResult) → m ≤ n → Ended n res → Ended m res
Ended-le m n res h (inl full) = inl (omega (arith, h, full))
Ended-le m n res h (inr e) = inr e

module _ {R : Type 0} (read : Reader R) (advances : Advances read) where
  read_full-Ended :
      (calls room : ℕ) (acc : Text) (r : R)
      → room ≤ calls
      → Ended (length acc + room) (read_full read calls room acc r).0
  unfolding read_full
  read_full-Ended zero room acc r h = inl (omega (arith, h))
  read_full-Ended (suc calls) room acc r h = elim (Bool-cases (room == 0)) [
    | inl z ↦ rw (read_full, z) (inl (ground arith))
    | inr z ↦ elim (Option-cases (read r room).0.err) [
      | inr (e, s) ↦ rw (read_full, z, s) (read_full_end-Ended room acc (read r room).0 e)
      | inl n ↦
          let got = got_byte _ (read r room).0.err n (advances r room (ground arith)) in
          let more =
            read_full-Ended calls (room - length (read r room).0.bytes)
              (acc ++ (read r room).0.bytes) (read r room).1 (omega (arith, got, h)) in
          rw (read_full, z, n)
            (Ended-le _ _ _ (omega (arith, length-append acc (read r room).0.bytes)) more)
    ]
  ]

  -- Where a read gives a byte or an error, as many reads as the buffer has bytes are enough: the
  -- buffer is full, or the reader has given an error.
  pub read_full-enough :
      (n : ℕ) (r : R)
      → (n ≤ length (read_full read n n [] r).0.bytes)
        ⊎ (is_some (read_full read n n [] r).0.err ≡ true)
  read_full-enough n r = elim (read_full-Ended n n [] r (omega arith)) [
    | inl full ↦ inl (omega (arith, full))
    | inr e ↦ inr e
  ]
