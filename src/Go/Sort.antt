-- ===== src/Go/Sort.antt =====
-- sort.Slice by an integer key: what it promises, and a sort that keeps the promise.
pub mod Unique
use mathlib.Core.List.{Perm}
use mathlib.Core.List.Perm
use zip_extraction.Common.{List, [], ◌∷◌, arith, All, Bool-cases, inl, inr, if◌then◌else◌}
use zip_extraction.Common.Int.{ℤ, ◌≤ℤ◌, ltb_ℤ}

module _ {A : Type 0} (key : A → ℤ) where
  abbrev pub IsSorted : List A → Type 0
  IsSorted [] = Unit
  IsSorted (a ∷ xs) = All (λ b. key a ≤ℤ key b) xs × IsSorted xs

  -- The result is in order and has the elements of the argument; the order of equal keys is open.
  pub record IsSorting (sort : List A → List A) : Type 0 where
    pub sorted : (xs : List A) → IsSorted (sort xs)
    pub perm : (xs : List A) → Perm (sort xs) xs

  insert : A → List A → List A
  insert a [] = a ∷ []
  insert a (b ∷ ys) =
      let rest = insert a ys in if ltb_ℤ (key b) (key a) then b ∷ rest else a ∷ b ∷ ys

  unfoldable pub insertion_sort : List A → List A
  unfolding insert
  insertion_sort [] = []
  insertion_sort (a ∷ xs) = insert a (insertion_sort xs)

  insert-perm : (a : A) (xs : List A) → Perm (insert a xs) (a ∷ xs)
  unfolding insert
  insert-perm a [] = Perm.refl (a ∷ [])
  insert-perm a (b ∷ ys) = elim (Bool-cases (ltb_ℤ (key b) (key a))) [
    | inl later ↦ rw later (Perm.trans (Perm.cons b (insert-perm a ys)) (Perm.swap a b ys))
    | inr here ↦ rw here (Perm.refl (a ∷ b ∷ ys))
  ]

  insert-All :
      (k : ℤ) (a : A) (xs : List A)
      → k ≤ℤ key a
      → All (λ b. k ≤ℤ key b) xs
      → All (λ b. k ≤ℤ key b) (insert a xs)
  unfolding insert
  insert-All k a [] h n = (h, tt)
  insert-All k a (b ∷ ys) h n = elim (Bool-cases (ltb_ℤ (key b) (key a))) [
    | inl later ↦ rw later (n.0, insert-All k a ys h n.1)
    | inr here ↦ rw here (h, n)
  ]

  All-le : (k m : ℤ) (xs : List A) → k ≤ℤ m → All (λ b. m ≤ℤ key b) xs → All (λ b. k ≤ℤ key b) xs
  All-le k m [] h n = tt
  All-le k m (a ∷ xs) h n = (omega (arith, n.0), All-le k m xs h n.1)

  insert-IsSorted : (a : A) (xs : List A) → IsSorted xs → IsSorted (insert a xs)
  unfolding insert
  insert-IsSorted a [] s = (tt, tt)
  insert-IsSorted a (b ∷ ys) s = elim (Bool-cases (ltb_ℤ (key b) (key a))) [
    | inl later ↦ rw later (insert-All (key b) a ys (ground arith) s.0, insert-IsSorted a ys s.1)
    | inr here ↦
        let le : key a ≤ℤ key b = ground arith in
        rw here ((le, All-le (key a) (key b) ys le s.0), s)
  ]

  insertion_sort-perm : (xs : List A) → Perm (insertion_sort xs) xs
  unfolding insertion_sort
  insertion_sort-perm [] = Perm.refl []
  insertion_sort-perm (a ∷ xs) =
      Perm.trans (insert-perm a (insertion_sort xs)) (Perm.cons a (insertion_sort-perm xs))

  insertion_sort-IsSorted : (xs : List A) → IsSorted (insertion_sort xs)
  unfolding insertion_sort
  insertion_sort-IsSorted [] = tt
  insertion_sort-IsSorted (a ∷ xs) =
      insert-IsSorted a (insertion_sort xs) (insertion_sort-IsSorted xs)

  pub insertion_sort-IsSorting : IsSorting insertion_sort
  insertion_sort-IsSorting = record { sorted = insertion_sort-IsSorted; perm = insertion_sort-perm }
