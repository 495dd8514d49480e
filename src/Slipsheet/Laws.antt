-- ===== src/Slipsheet/Laws.antt =====
-- What the document says of the entries.
use mathlib.Core.Nat
use mathlib.Core.List
use mathlib.Core.List.{Perm, append_cancel_right}
use mathlib.Core.List.Perm
use zip_extraction.Common.{
  arith, All, ◌≤◌, ℕ, suc, ◌≡◌, refl, sym, ap, ◌∙◌, List, [], ◌∷◌, map, length, length-map,
}
use zip_extraction.Common.Int.{ℤ, pos, ◌<ℤ◌}
use zip_extraction.Go.Strings.{Text, text}
use zip_extraction.Go.Strings.Laws.{append-cancel_left}
use zip_extraction.Go.Sort.{IsSorted, IsSorting}
use zip_extraction.Go.Sort.Unique.{IsStrict, sorted_unique}
use zip_extraction.Extraction.Service.Process.Endings.{Numbered}
use zip_extraction.Extraction.Types.{Status, Time, EntryOutcome}
use zip_extraction.Slipsheet.{ChildEntry, child_entry, build, Writer, slipsheet_key}

abbrev pub by_index : ChildEntry → ℤ
by_index c = pos c.entry_index

native : Nat.ℕ → ℕ
native Nat.zero = 0
native (Nat.suc n) = suc (native n)

length-native : {A : Type 0} (xs : List A) → length xs ≡ native (List.length xs)
unfolding native
length-native [] = refl
length-native (x ∷ xs) = ap suc (length-native xs)

length-Perm : {A : Type 0} (xs ys : List A) → Perm xs ys → length xs ≡ length ys
length-Perm xs ys h = length-native xs ∙ ap native (Perm.length-eq h) ∙ sym (length-native ys)

-- The children of the document are in the order of their indices, they are the entries with all that
-- the document says of one, and their number is that of the entries.
pub build-children :
    (sort_by_index : List ChildEntry → List ChildEntry) (exec_id source_archive : Text)
    (status : Status) (entries : List EntryOutcome) (reason detail : Text) (now : Time)
    → IsSorting by_index sort_by_index
    → IsSorted by_index
        (build sort_by_index exec_id source_archive status entries reason detail now).children
      × (Perm
            (build sort_by_index exec_id source_archive status entries reason detail now).children
            (map child_entry entries)
          × ((build sort_by_index exec_id source_archive status entries reason detail
                now).child_count
              ≡ length entries))
unfolding build
build-children sort exec_id source status entries reason detail now sorting =
    let children = map child_entry entries in
    (
      sorting.sorted children,
      (
        sorting.perm children,
        length-Perm (sort children) children (sorting.perm children)
            ∙ length-map child_entry entries,
      ),
    )

-- the indices of the entries go up
children-IsStrict :
    (k : ℕ) (entries : List EntryOutcome)
    → Numbered k entries
    → IsStrict by_index (map child_entry entries)
unfolding child_entry
children-IsStrict k [] h = tt
children-IsStrict k (e ∷ entries) (i, h) =
    (above k entries (omega (arith, i)) h, children-IsStrict (suc k) entries h)
  where
    above :
        (m : ℕ) (es : List EntryOutcome)
        → e.index ≤ suc m
        → Numbered (suc m) es
        → All (λ c. by_index (child_entry e) <ℤ by_index c) (map child_entry es)
    above m [] l h = tt
    above m (x ∷ es) l (i, h) = (omega (arith, i, l), above (suc m) es (omega (arith, l)) h)

ChildEntry-set : IsSet ChildEntry
ChildEntry-set = hlevel

-- Where the entries are numbered in their order, the children are the entries in that order, whatever
-- the sort does with equal indices.
pub build-in_order :
    (sort_by_index : List ChildEntry → List ChildEntry) (exec_id source_archive : Text)
    (status : Status) (entries : List EntryOutcome) (reason detail : Text) (now : Time)
    → IsSorting by_index sort_by_index
    → Numbered 0 entries
    → (build sort_by_index exec_id source_archive status entries reason detail now).children
      ≡ map child_entry entries
unfolding build
build-in_order sort exec_id source status entries reason detail now sorting numbered =
    let children = map child_entry entries in
    sorted_unique by_index ChildEntry-set (sort children) children (sorting.sorted children)
      (children-IsStrict 0 entries numbered) (sorting.perm children)

-- Two executions have the same document key only if they are the same.
pub slipsheet_key_injective :
    (w : Writer) (exec exec' : Text) → slipsheet_key w exec ≡ slipsheet_key w exec' → exec ≡ exec'
unfolding slipsheet_key
slipsheet_key_injective w exec exec' e =
    append_cancel_right exec exec' (text ".json") (append-cancel_left w.prefix _ _ e)
