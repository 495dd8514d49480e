-- ===== src/Log/Laws.antt =====
-- The filter of sensitive fields.
use zip_extraction.Common.{◌≡◌, ◌∙◌, sym, refl, ◌↔◌, inl, inr, true, List, [], ◌∷◌, Bool-cases}
use zip_extraction.Go.Strings.{Text, contains}
use zip_extraction.Go.Strings.Search.{Within, Some, contains_iff, any_iff}
use zip_extraction.Log.{
  Field, sensitive_key_patterns, lower_ascii, is_sensitive_key, filter_field, filter_sensitive,
}

-- One of the patterns stands in the key, in whatever case.
abbrev pub IsSecret : Text → Type 0
IsSecret key = Some (λ p. Within p (lower_ascii key)) sensitive_key_patterns

pub is_sensitive_key_iff : (key : Text) → (is_sensitive_key key ≡ true) ↔ IsSecret key
unfolding is_sensitive_key
is_sensitive_key_iff key =
    any_iff (λ p. contains (lower_ascii key) p) (λ p. Within p (lower_ascii key))
      (λ p. contains_iff (lower_ascii key) p) sensitive_key_patterns

module _ {V : Type 0} (redacted : V) where
  -- What is logged of a field.
  pub record Redacts (f g : Field V) : Type 0 where
    pub key : g.key ≡ f.key
    pub secret : IsSecret f.key → g.value ≡ redacted
    pub open_value : ¬ IsSecret f.key → g ≡ f

  abbrev pub Each : List (Field V) → List (Field V) → Type 0
  Each [] [] = Unit
  Each [] (g ∷ gs) = ⊥
  Each (f ∷ fs) [] = ⊥
  Each (f ∷ fs) (g ∷ gs) = Redacts f g × Each fs gs

  filter_field-Redacts : (f : Field V) → Redacts f (filter_field redacted f)
  unfolding filter_field
  filter_field-Redacts f = elim (Bool-cases (is_sensitive_key f.key)) [
    | inl e ↦ rw e (record {
      key = refl;
      secret = λ s. refl;
      open_value = λ n. absurd (n ((is_sensitive_key_iff f.key).0 e));
    })
    | inr e ↦ rw e (record {
      key = refl;
      secret = λ s. let t = sym e ∙ (is_sensitive_key_iff f.key).1 s in cc;
      open_value = λ n. refl;
    })
  ]

  filter_field_twice :
      (f : Field V) → filter_field redacted (filter_field redacted f) ≡ filter_field redacted f
  unfolding filter_field
  filter_field_twice f = elim (Bool-cases (is_sensitive_key f.key)) [
    | inl e ↦ rw (e, e)
    | inr e ↦ rw (e, e)
  ]

  -- What is logged of some fields: there are as many, in the same order and with the same keys; a
  -- field whose key holds one of the patterns, in whatever case, has the redacted value, and any
  -- other is as it was. To filter once more changes nothing.
  pub filter_sensitive-Redacts :
      (fields : List (Field V))
      → Each fields (filter_sensitive redacted fields)
        × (filter_sensitive redacted (filter_sensitive redacted fields)
            ≡ filter_sensitive redacted fields)
  unfolding filter_sensitive
  filter_sensitive-Redacts [] = (tt, refl)
  filter_sensitive-Redacts (f ∷ fields) =
      let (each, twice) = filter_sensitive-Redacts fields in
      ((filter_field-Redacts f, each), rw (filter_field_twice f, twice))
