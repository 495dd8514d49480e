-- ===== src/Go/Strings/Laws.antt =====
-- Laws of the string operations.
use mathlib.Core.List.{append-nil}
use zip_extraction.Common.{
  ℕ, ◌≡◌, ◌≢◌, ◌↔◌, refl, true, false, List, [], ◌∷◌, ◌++◌, arith, ◌==◌, All, inl, inr, Bool-cases,
  All-append, appends,
}
use zip_extraction.Go.Strings.{Text, str_eq, replace_all, split, cons_head, base_from, after_last}

pub str_eq_refl : (s : Text) → str_eq s s ≡ true
unfolding str_eq
str_eq_refl [] = refl
str_eq_refl (x ∷ xs) = ground (arith, str_eq_refl xs)

pub eq_of_str_eq : (s t : Text) → str_eq s t ≡ true → s ≡ t
unfolding str_eq
eq_of_str_eq [] [] h = refl
eq_of_str_eq [] (y ∷ ys) h = cc
eq_of_str_eq (x ∷ xs) [] h = cc
eq_of_str_eq (x ∷ xs) (y ∷ ys) h = ground (arith, eq_of_str_eq xs ys)

pub str_eq_iff : (s t : Text) → (str_eq s t ≡ true) ↔ (s ≡ t)
str_eq_iff s t = (eq_of_str_eq s t, λ e. rw e (str_eq_refl t))

-- Two different strings fail the test.
pub str_eq_ne : (s t : Text) → s ≢ t → str_eq s t ≡ false
str_eq_ne s t h = elim (Bool-cases (str_eq s t)) [
  | inl e ↦ absurd (h (eq_of_str_eq s t e))
  | inr e ↦ e
]

abbrev pub NoByte : ℕ → Text → Type 0
NoByte b = All (λ c. c ≢ b)

-- A separator that the first parts do not hold splits a text in one way only.
pub append-sep_injective :
    (b : ℕ) (xs ys s t : Text)
    → NoByte b xs
    → NoByte b ys
    → xs ++ (b ∷ s) ≡ ys ++ (b ∷ t)
    → (xs ≡ ys) × (s ≡ t)
append-sep_injective b [] [] s t hx hy e = ground arith
append-sep_injective b [] (y ∷ ys) s t hx hy e = ground arith
append-sep_injective b (x ∷ xs) [] s t hx hy e = ground arith
append-sep_injective b (x ∷ xs) (y ∷ ys) s t hx hy e =
    ground (arith, append-sep_injective b xs ys s t hx.1 hy.1)

-- A common prefix cancels.
pub append-cancel_left : (p s t : Text) → p ++ s ≡ p ++ t → s ≡ t
append-cancel_left [] s t e = e
append-cancel_left (x ∷ p) s t e = append-cancel_left p s t (ground arith)

cons_head-NoByte :
    (b c : ℕ) (ss : List Text) → c ≢ b → All (NoByte b) ss → All (NoByte b) (cons_head c ss)
unfolding cons_head
cons_head-NoByte b c [] h k = ((h, tt), tt)
cons_head-NoByte b c (s ∷ ss) h k = ((h, k.0), k.1)

pub split-NoByte : (s : Text) (sep : ℕ) → All (NoByte sep) (split s sep)
unfolding split
split-NoByte [] sep = (tt, tt)
split-NoByte (c ∷ s) sep = elim (Bool-cases (c == sep)) [
  | inl e ↦ rw e (tt, split-NoByte s sep)
  | inr e ↦ rw e (cons_head-NoByte sep c (split s sep) (ground arith) (split-NoByte s sep))
]

pub replace_all-NoByte : (s : Text) (old new : ℕ) → new ≢ old → NoByte old (replace_all s old new)
unfolding replace_all
replace_all-NoByte [] old new h = tt
replace_all-NoByte (c ∷ s) old new h = (ground arith, replace_all-NoByte s old new h)

pub replace_all_id : (s : Text) (old new : ℕ) → NoByte old s → replace_all s old new ≡ s
unfolding replace_all
replace_all_id [] old new h = refl
replace_all_id (c ∷ s) old new h = ground (arith, replace_all_id s old new h.1)

base_from_end : (sep : ℕ) (s base : Text) → NoByte sep s → base_from sep s base ≡ base
unfolding base_from
base_from_end sep [] base h = refl
base_from_end sep (c ∷ s) base h = ground (arith, base_from_end sep s base h.1)

base_from-append :
    (sep : ℕ) (s u base : Text)
    → NoByte sep s
    → base_from sep (s ++ (sep ∷ u)) base ≡ base_from sep u u
unfolding base_from
base_from-append sep [] u base h = ground arith
base_from-append sep (c ∷ s) u base h = ground (arith, base_from-append sep s u base h.1)

base_from-NoByte :
    (sep : ℕ) (pre s base : Text)
    → base ≡ pre ++ s
    → NoByte sep pre
    → NoByte sep (base_from sep s base)
unfolding base_from
base_from-NoByte sep pre [] base e h = rw (e, append-nil) h
base_from-NoByte sep pre (c ∷ s) base e h = elim (Bool-cases (c == sep)) [
  | inl k ↦ rw k (base_from-NoByte sep [] s s refl tt)
  | inr k ↦ rw k (
      base_from-NoByte sep (pre ++ c ∷ []) s base (rw e (simp appends))
        (All-append (λ c. c ≢ sep) pre (c ∷ []) h (ground arith, tt)))
]

base_from-All {ℓ} :
    (P : ℕ → Type ℓ) (sep : ℕ) (s base : Text) → All P s → All P base → All P (base_from sep s base)
unfolding base_from
base_from-All P sep [] base h k = k
base_from-All P sep (c ∷ s) base h k = elim (Bool-cases (c == sep)) [
  | inl e ↦ rw e (base_from-All P sep s s h.1 h.1)
  | inr e ↦ rw e (base_from-All P sep s base h.1 k)
]

pub after_last-All {ℓ} : (P : ℕ → Type ℓ) (s : Text) (sep : ℕ) → All P s → All P (after_last s sep)
unfolding after_last
after_last-All P s sep h = base_from-All P sep s s h h

pub after_last_none : (s : Text) (sep : ℕ) → NoByte sep s → after_last s sep ≡ s
unfolding after_last
after_last_none s sep h = base_from_end sep s s h

pub after_last-append :
    (s u : Text) (sep : ℕ) → NoByte sep s → after_last (s ++ (sep ∷ u)) sep ≡ after_last u sep
unfolding after_last
after_last-append s u sep h = base_from-append sep s u (s ++ (sep ∷ u)) h

pub split_none : (s : Text) (sep : ℕ) → NoByte sep s → split s sep ≡ s ∷ []
unfolding split cons_head
split_none [] sep h = refl
split_none (c ∷ s) sep h = ground (arith, split_none s sep h.1)

cons_head-All {ℓ} :
    (P : ℕ → Type ℓ) (c : ℕ) (ss : List Text) → P c → All (All P) ss → All (All P) (cons_head c ss)
unfolding cons_head
cons_head-All P c [] h k = ((h, tt), tt)
cons_head-All P c (s ∷ ss) h k = ((h, k.0), k.1)

pub split-All {ℓ} : (P : ℕ → Type ℓ) (s : Text) (sep : ℕ) → All P s → All (All P) (split s sep)
unfolding split
split-All P [] sep h = (tt, tt)
split-All P (c ∷ s) sep h = elim (Bool-cases (c == sep)) [
  | inl e ↦ rw e (tt, split-All P s sep h.1)
  | inr e ↦ rw e (cons_head-All P c (split s sep) h.0 (split-All P s sep h.1))
]

pub split-append :
    (s u : Text) (sep : ℕ) → NoByte sep s → split (s ++ (sep ∷ u)) sep ≡ s ∷ split u sep
unfolding split cons_head
split-append [] u sep h = ground arith
split-append (c ∷ s) u sep h = ground (arith, split-append s u sep h.1)
