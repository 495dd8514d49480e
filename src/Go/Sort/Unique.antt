-- ===== src/Go/Sort/Unique.antt =====
-- A sort by keys that are all different has one result.
use mathlib.Core.List.{Perm, Mem, mem-cons, mem-cons_self, not-mem-nil}
use mathlib.Core.List.Perm
use mathlib.Core.Logic.Or
use mathlib.Core.Path.{subst}
use native.Mathlib.Bridge.{le_prop}
use native.Mathlib.Omega.{arith}
use zip_extraction.Common.{◌≡◌, refl, List, [], ◌∷◌, All, All-mem}
use zip_extraction.Common.Int.{ℤ, ◌≤ℤ◌, ◌<ℤ◌}
use zip_extraction.Go.Sort.{IsSorted}

module _ {A : Type 0} (key : A → ℤ) where
  -- each key is less than all that follow
  abbrev pub IsStrict : List A → Type 0
  IsStrict [] = Unit
  IsStrict (a ∷ xs) = All (λ b. key a <ℤ key b) xs × IsStrict xs

  first_le :
      (k : A) (xs : List A) (a : A) → All (λ b. key k ≤ℤ key b) xs → Mem a (k ∷ xs) → key k ≤ℤ key a
  first_le k xs a h m = All-mem (λ b. key k ≤ℤ key b) (λ b. le_prop) (k ∷ xs) (omega arith, h) m

  same_head :
      IsSet A
      → (x y : A) (xs ys : List A) → All (λ b. key x ≤ℤ key b) xs
      → IsStrict (y ∷ ys)
      → Perm (x ∷ xs) (y ∷ ys)
      → x ≡ y
  same_head set x y xs ys h s p =
      let y_in : Mem y (x ∷ xs) = (Perm.mem_iff p).1 mem-cons_self in
      let x_le = first_le x xs y h y_in in
      Or.resolve_right (set x y) (mem-cons.0 ((Perm.mem_iff p).0 mem-cons_self)) (λ m.
        let y_lt = All-mem (λ b. key y <ℤ key b) (λ b. le_prop) ys s.0 m in
        omega (arith, x_le, y_lt))

  pub sorted_unique :
      IsSet A → (xs ys : List A) → IsSorted key xs → IsStrict ys → Perm xs ys → xs ≡ ys
  sorted_unique set [] [] h s p = refl
  sorted_unique set [] (y ∷ ys) h s p = absurd (not-mem-nil ((Perm.mem_iff p).1 mem-cons_self))
  sorted_unique set (x ∷ xs) [] h s p = absurd (not-mem-nil ((Perm.mem_iff p).0 mem-cons_self))
  sorted_unique set (x ∷ xs) (y ∷ ys) h s p =
      let e = same_head set x y xs ys h.0 s p in
      let rest = Perm.cons_inv (subst (λ z. Perm (z ∷ xs) (y ∷ ys)) e p) in
      rw (e, sorted_unique set xs ys h.1 s.1 rest) refl
