-- ===== src/BombDefence/Overlap.antt =====
-- Rule 11: the check of the sorted neighbours decides whether any two entries share a byte.
use mathlib.Core.List.{Pairwise}
use mathlib.Core.List.Perm
use native.Mathlib.Bridge.{le_prop}
use zip_extraction.Common.{
  ◌≡◌, ◌↔◌, refl, true, none, List, [], ◌∷◌, arith, All, Bool-cases, inl, inr, length, ltb, All-mem,
  All-of_mem,
}
use zip_extraction.Common.Int.{ℤ, ◌≤ℤ◌, ◌<ℤ◌, ltb_ℤ}
use zip_extraction.Go.Sort.{IsSorted, IsSorting}
use zip_extraction.Extraction.Types.{EntryDataRange, ArchiveMetadata}
use zip_extraction.BombDefence.{overlap_walk, overlap_sorted, overlap_check}

-- No byte of the archive lies in both ranges.
abbrev pub AreDisjoint : EntryDataRange → EntryDataRange → Type 0
AreDisjoint a b = (x : ℤ) → a.start ≤ℤ x → x <ℤ a.end → b.start ≤ℤ x → x <ℤ b.end → ⊥

abbrev pub StartsBefore : EntryDataRange → EntryDataRange → Type 0
StartsBefore a b = a.start ≤ℤ b.start

abbrev pub by_start : EntryDataRange → ℤ
by_start r = r.start

-- `AreDisjoint` of each two ranges, by recursion
abbrev AllDisjoint : List EntryDataRange → Type 0
AllDisjoint [] = Unit
AllDisjoint (r ∷ rs) = All (AreDisjoint r) rs × AllDisjoint rs

abbrev pub IsNonempty : EntryDataRange → Type 0
IsNonempty r = r.start <ℤ r.end

disjoint_prop : (a b : EntryDataRange) → IsProp (AreDisjoint a b)
disjoint_prop a b = hlevel

disjoint_symm : (a b : EntryDataRange) → AreDisjoint a b → AreDisjoint b a
disjoint_symm a b h x p q r s = h x r s p q

disjoint_from :
    (prev cur : EntryDataRange) (rs : List EntryDataRange)
    → prev.end ≤ℤ cur.start
    → All (StartsBefore cur) rs
    → All (AreDisjoint prev) rs
disjoint_from prev cur [] h s = tt
disjoint_from prev cur (r ∷ rs) h s =
    (λ x p q u v. omega (arith, s.0), disjoint_from prev cur rs h s.1)

overlap_walk-AllDisjoint :
    (prev : EntryDataRange) (rs : List EntryDataRange)
    → IsSorted by_start (prev ∷ rs)
    → overlap_walk prev rs ≡ none
    → AllDisjoint (prev ∷ rs)
unfolding overlap_walk
overlap_walk-AllDisjoint prev [] s h = (tt, tt)
overlap_walk-AllDisjoint prev (cur ∷ rs) s h =
    let apart : prev.end ≤ℤ cur.start = ground arith in
    (
      (λ x p q u v. omega arith, disjoint_from prev cur rs apart s.1.0),
      overlap_walk-AllDisjoint cur rs s.1 (ground arith),
    )

overlap_walk-none :
    (prev : EntryDataRange) (rs : List EntryDataRange)
    → IsSorted by_start (prev ∷ rs)
    → All IsNonempty (prev ∷ rs)
    → AllDisjoint (prev ∷ rs)
    → overlap_walk prev rs ≡ none
unfolding overlap_walk
overlap_walk-none prev [] s n d = refl
overlap_walk-none prev (cur ∷ rs) s n d = elim (Bool-cases (ltb_ℤ cur.start prev.end)) [
  | inl over ↦ absurd (d.0.0 cur.start s.0.0 (ground arith) (omega arith) n.1.0)
  | inr apart ↦ rw apart (overlap_walk-none cur rs s.1 n.1 d.1)
]

AllDisjoint-Pairwise : (rs : List EntryDataRange) → AllDisjoint rs → Pairwise AreDisjoint rs
AllDisjoint-Pairwise [] h = Pairwise.nil
AllDisjoint-Pairwise (r ∷ rs) h =
    Pairwise.cons (λ a m. All-mem (AreDisjoint r) (disjoint_prop r) rs h.0 m)
      (AllDisjoint-Pairwise rs h.1)

Pairwise-AllDisjoint : (rs : List EntryDataRange) → Pairwise AreDisjoint rs → AllDisjoint rs
Pairwise-AllDisjoint [] Pairwise.nil = tt
Pairwise-AllDisjoint (r ∷ rs) (Pairwise.cons h p) =
    (All-of_mem (AreDisjoint r) rs h, Pairwise-AllDisjoint rs p)

overlap_sorted-AllDisjoint :
    (rs : List EntryDataRange) → IsSorted by_start rs → overlap_sorted rs ≡ none → AllDisjoint rs
unfolding overlap_sorted
overlap_sorted-AllDisjoint [] s h = tt
overlap_sorted-AllDisjoint (r ∷ rs) s h = overlap_walk-AllDisjoint r rs s h

overlap_sorted-none :
    (rs : List EntryDataRange)
    → IsSorted by_start rs
    → All IsNonempty rs
    → AllDisjoint rs
    → overlap_sorted rs ≡ none
unfolding overlap_sorted
overlap_sorted-none [] s n d = refl
overlap_sorted-none (r ∷ rs) s n d = overlap_walk-none r rs s n d

short-AllDisjoint : (rs : List EntryDataRange) → ltb (length rs) 2 ≡ true → AllDisjoint rs
short-AllDisjoint [] h = tt
short-AllDisjoint (r ∷ []) h = (tt, tt)
short-AllDisjoint (r ∷ q ∷ rs) h = absurd (ground arith)

IsNonempty-prop : (r : EntryDataRange) → IsProp (IsNonempty r)
IsNonempty-prop r = le_prop

-- An archive that passes has no two entries whose compressed bytes overlap.
pub overlap_check-disjoint :
    (sort_by_start : List EntryDataRange → List EntryDataRange) (meta : ArchiveMetadata)
    → IsSorting by_start sort_by_start
    → overlap_check sort_by_start meta ≡ none
    → Pairwise AreDisjoint meta.entry_data_ranges
unfolding overlap_check
overlap_check-disjoint sort_by_start meta sorting h =
    let rs = meta.entry_data_ranges in
    elim (Bool-cases (ltb (length rs) 2)) [
      | inl short ↦ AllDisjoint-Pairwise rs (short-AllDisjoint rs short)
      | inr long ↦ Perm.pairwise disjoint_prop disjoint_symm (sorting.perm rs) (
          AllDisjoint-Pairwise (sort_by_start rs)
            (overlap_sorted-AllDisjoint (sort_by_start rs) (sorting.sorted rs) (rw long at h)))
    ]

-- An archive whose entries all have compressed bytes passes if no two of them overlap.
pub overlap_check-none :
    (sort_by_start : List EntryDataRange → List EntryDataRange) (meta : ArchiveMetadata)
    → IsSorting by_start sort_by_start
    → All IsNonempty meta.entry_data_ranges
    → Pairwise AreDisjoint meta.entry_data_ranges
    → overlap_check sort_by_start meta ≡ none
unfolding overlap_check
overlap_check-none sort_by_start meta sorting n p =
    let rs = meta.entry_data_ranges in
    elim (Bool-cases (ltb (length rs) 2)) [
      | inl short ↦ rw short
      | inr long ↦ rw long (
          overlap_sorted-none (sort_by_start rs) (sorting.sorted rs)
            (All-of_mem IsNonempty (sort_by_start rs)
              λ a m. All-mem IsNonempty IsNonempty-prop rs n ((Perm.mem_iff (sorting.perm rs)).0 m))
            (Pairwise-AllDisjoint (sort_by_start rs)
              (Perm.pairwise disjoint_prop disjoint_symm (Perm.symm (sorting.perm rs)) p)))
    ]

-- Where sort.Slice sorts and each entry has compressed bytes: an archive passes exactly where no two
-- of its entries share a byte.
pub overlap_check_iff :
    (sort_by_start : List EntryDataRange → List EntryDataRange) (meta : ArchiveMetadata)
    → IsSorting by_start sort_by_start
    → All IsNonempty meta.entry_data_ranges
    → (overlap_check sort_by_start meta ≡ none) ↔ Pairwise AreDisjoint meta.entry_data_ranges
overlap_check_iff sort_by_start meta sorting nonempty = (
  overlap_check-disjoint sort_by_start meta sorting,
  overlap_check-none sort_by_start meta sorting nonempty,
)
