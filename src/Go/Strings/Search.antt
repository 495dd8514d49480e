-- ===== src/Go/Strings/Search.antt =====
-- What strings.HasPrefix and strings.Contains decide.
use zip_extraction.Common.{
  ◌≡◌, ◌∙◌, ap, refl, ◌↔◌, ◌⊎◌, inl, inr, Bool, true, List, [], ◌∷◌, ◌++◌, ◌==◌, ==_iff, any,
  Bool-cases,
}
use zip_extraction.Go.Strings.{Text, has_prefix, contains}

-- `p` stands somewhere in `s`.
abbrev pub Within : Text → Text → Type 0
Within p s = (before : Text) × (after : Text) × (s ≡ before ++ (p ++ after))

-- One element at least has the property.
abbrev pub Some {ℓ} : {A : Type ℓ} → (A → Type 0) → List A → Type 0
Some P [] = ⊥
Some P (x ∷ xs) = P x ⊎ Some P xs

prefix_rest : (s p : Text) → has_prefix s p ≡ true → (after : Text) × (s ≡ p ++ after)
unfolding has_prefix
prefix_rest s [] h = (s, refl)
prefix_rest [] (y ∷ p) h = cc
prefix_rest (x ∷ s) (y ∷ p) h = elim (Bool-cases (x == y)) [
  | inl e ↦
      let (after, q) = prefix_rest s p (rw e at h) in
      (after, ap (λ c. c ∷ s) ((==_iff x y).0 e) ∙ ap (λ r. y ∷ r) q)
  | inr e ↦ let f = rw e at h in cc
]

has_prefix-append : (p after : Text) → has_prefix (p ++ after) p ≡ true
unfolding has_prefix
has_prefix-append [] after = refl
has_prefix-append (x ∷ p) after = rw ((==_iff x x).1 refl) (has_prefix-append p after)

contains-Within : (s p : Text) → contains s p ≡ true → Within p s
unfolding contains has_prefix
contains-Within [] p h = let (after, q) = prefix_rest [] p h in ([], after, q)
contains-Within (x ∷ s) p h = elim (Bool-cases (has_prefix (x ∷ s) p)) [
  | inl e ↦ let (after, q) = prefix_rest (x ∷ s) p e in ([], after, q)
  | inr e ↦
      let (before, after, q) = contains-Within s p (rw e at h) in
      (x ∷ before, after, ap (λ r. x ∷ r) q)
]

contains-append : (before p after : Text) → contains (before ++ (p ++ after)) p ≡ true
unfolding contains
contains-append [] [] [] = refl
contains-append [] [] (a ∷ after) = refl
contains-append [] (x ∷ p) after = rw (has_prefix-append (x ∷ p) after)
contains-append (b ∷ before) p after =
    elim (Bool-cases (has_prefix (b ∷ (before ++ (p ++ after))) p)) [
      | inl e ↦ rw e
      | inr e ↦ rw e (contains-append before p after)
    ]

-- strings.Contains finds the substring exactly where it stands somewhere in the string.
pub contains_iff : (s p : Text) → (contains s p ≡ true) ↔ Within p s
contains_iff s p =
    (contains-Within s p, λ w. ap (λ r. contains r p) w.2 ∙ contains-append w.0 p w.1)

module _ {ℓ} {A : Type ℓ} (test : A → Bool) (P : A → Type 0)
    (iff : (x : A) → (test x ≡ true) ↔ P x) where
  any-Some : (xs : List A) → any test xs ≡ true → Some P xs
  any-Some [] h = cc
  any-Some (x ∷ xs) h = elim (Bool-cases (test x)) [
    | inl e ↦ inl ((iff x).0 e)
    | inr e ↦ inr (any-Some xs (rw e at h))
  ]

  any_of_Some : (xs : List A) → Some P xs → any test xs ≡ true
  any_of_Some [] h = elim h [ ]
  any_of_Some (x ∷ xs) (inl p) = rw ((iff x).1 p)
  any_of_Some (x ∷ xs) (inr p) = elim (Bool-cases (test x)) [
    | inl e ↦ rw e
    | inr e ↦ rw e (any_of_Some xs p)
  ]

  pub any_iff : (xs : List A) → (any test xs ≡ true) ↔ Some P xs
  any_iff xs = (any-Some xs, any_of_Some xs)
