-- ===== src/Go/Path/Laws.antt =====
-- `clean` on relative paths without `..`: the last element is that of the path, or `.`.
use mathlib.Core.List.{reverse, reverse-cons}
use zip_extraction.Common.{
  ℕ, if_intro, ◌≡◌, ◌≢◌, ◌⊎◌, inl, inr, refl, ◌∙◌, ap, true, false, Bool, ◌||◌, List, [], ◌∷◌, ◌++◌,
  arith, All, All-append, Bool-cases, is_empty, ◌==◌, ◌&&◌, if◌then◌else◌,
}
use zip_extraction.Go.Strings.{Text, split, str_eq, has_prefix, after_last}
use zip_extraction.Go.Strings.Laws.{
  NoByte, str_eq_iff, str_eq_ne, after_last_none, after_last-append, split_none, split-NoByte,
  split-All, split-append,
}
use zip_extraction.Go.Path.{
  dot, dot_dot, back, push_element, elements, join, is_rooted, or_dot, clean, trim_slashes, base,
}

-- An element that names a file of the directory it stands in.
pub record IsPlain (e : Text) : Type 0 where
  pub nonempty : e ≢ []
  pub not_dot : e ≢ dot
  pub not_dot_dot : e ≢ dot_dot
  pub no_slash : NoByte b'/' e

is_empty-false : (e : Text) → is_empty e ≡ false → e ≢ []
is_empty-false [] h k = cc
is_empty-false (c ∷ e) h k = cc

push_element-IsPlain :
    (stack : List Text) (e : Text)
    → All IsPlain stack
    → NoByte b'/' e
    → e ≢ dot_dot
    → All IsPlain (push_element false stack e)
unfolding push_element
push_element-IsPlain stack e h n d = elim (Bool-cases (is_empty e || str_eq e dot)) [
  | inl k ↦ rw k h
  | inr k ↦
      rw (k, str_eq_ne e dot_dot d)
        (
          record {
            nonempty = is_empty-false e (ground arith);
            not_dot = λ q. ground (arith, (str_eq_iff e dot).1 q);
            not_dot_dot = d;
            no_slash = n;
          },
          h,
        )
]

elements-IsPlain :
    (stack es : List Text)
    → All IsPlain stack
    → All (NoByte b'/') es
    → All (λ e. e ≢ dot_dot) es
    → All IsPlain (elements false stack es)
unfolding elements
elements-IsPlain stack [] h n d = h
elements-IsPlain stack (e ∷ es) h n d =
    elements-IsPlain (push_element false stack e) es (push_element-IsPlain stack e h n.0 d.0) n.1
      d.1

All-reverse {ℓ} : {A : Type 0} (P : A → Type ℓ) (xs : List A) → All P xs → All P (reverse xs)
All-reverse P [] h = tt
All-reverse P (x ∷ xs) h =
    rw reverse-cons (All-append P (reverse xs) (x ∷ []) (All-reverse P xs h.1) (h.0, tt))

after_last-join :
    (es : List Text) (e : Text)
    → All IsPlain es
    → NoByte b'/' e
    → after_last (join (es ++ (e ∷ []))) b'/' ≡ e
unfolding join
after_last-join [] e h n = after_last_none e b'/' n
after_last-join (f ∷ []) e h n = after_last-append f e b'/' h.0.no_slash ∙ after_last_none e b'/' n
after_last-join (f ∷ g ∷ es) e h n =
    after_last-append f (join (g ∷ es ++ e ∷ [])) b'/' h.0.no_slash
    ∙ after_last-join (g ∷ es) e h.1 n

-- The base name of what `clean` makes of the stack.
base-join :
    (stack : List Text)
    → All IsPlain stack
    → (after_last (or_dot (join (reverse stack))) b'/' ≡ dot)
      ⊎ IsPlain (after_last (or_dot (join (reverse stack))) b'/')
unfolding or_dot join
base-join [] h = inl (after_last_none dot b'/' (omega arith, tt))
base-join (top ∷ stack) h = elim (Bool-cases (is_empty (join (reverse (top ∷ stack))))) [
  | inl k ↦ inl (rw k (after_last_none dot b'/' (omega arith, tt)))
  | inr k ↦ inr (rw (k, reverse-cons, last) h.0)
]
  where
    last : after_last (join (reverse stack ++ top ∷ [])) b'/' ≡ top
    last = after_last-join (reverse stack) top (All-reverse IsPlain stack h.1) h.0.no_slash

-- The base name of a cleaned relative path without `..` elements is `.` or a plain name.
pub clean-base :
    (path : Text)
    → has_prefix path (b'/' ∷ []) ≡ false
    → All (λ e. e ≢ dot_dot) (split path b'/')
    → (after_last (clean path) b'/' ≡ dot) ⊎ IsPlain (after_last (clean path) b'/')
unfolding clean is_rooted has_prefix
clean-base [] r d =
    base-join (elements false [] (split [] b'/'))
      (elements-IsPlain [] (split [] b'/') tt (split-NoByte [] b'/') d)
clean-base (c ∷ s) r d = elim (Bool-cases (c == b'/')) [
  | inl k ↦ absurd (ground arith)
  | inr k ↦ rw k (
      base-join (elements false [] (split (c ∷ s) b'/'))
        (elements-IsPlain [] (split (c ∷ s) b'/') tt (split-NoByte (c ∷ s) b'/') d))
]

-- A plain name is its own cleaning.
pub clean_plain : (e : Text) → IsPlain e → clean e ≡ e
unfolding clean is_rooted elements push_element join or_dot
clean_plain [] p = absurd (p.nonempty refl)
clean_plain (c ∷ s) p = rw (split_none (c ∷ s) b'/' p.no_slash) (
    ground (
      arith,
      p.no_slash.0,
      str_eq_ne (c ∷ s) dot p.not_dot,
      str_eq_ne (c ∷ s) dot_dot p.not_dot_dot,
    ))

-- The bytes of a cleaned path are the path's, dots and slashes.
module _ {ℓ} (P : ℕ → Type ℓ) (on_dot : P b'.') (on_slash : P b'/') where
  back-All :
      (rooted : Bool) (stack : List Text) → All (All P) stack → All (All P) (back rooted stack)
  unfolding back
  back-All rooted [] h = if_intro (All (All P)) rooted tt ((on_dot, (on_dot, tt)), tt)
  back-All rooted (t ∷ ts) h =
      if_intro (All (All P)) (str_eq t dot_dot) ((on_dot, (on_dot, tt)), h) h.1

  elements-All :
      (rooted : Bool) (stack es : List Text)
      → All (All P) stack
      → All (All P) es
      → All (All P) (elements rooted stack es)
  unfolding elements push_element
  elements-All rooted stack [] h k = h
  elements-All rooted stack (e ∷ es) h k =
      elements-All rooted (push_element rooted stack e) es
        (if_intro (All (All P)) (is_empty e || str_eq e dot) h
          (if_intro (All (All P)) (str_eq e dot_dot) (back-All rooted stack h) (k.0, h)))
        k.1

  join-All : (es : List Text) → All (All P) es → All P (join es)
  unfolding join
  join-All [] h = tt
  join-All (e ∷ []) h = h.0
  join-All (e ∷ f ∷ es) h =
      All-append P e (b'/' ∷ join (f ∷ es)) h.0 (on_slash, join-All (f ∷ es) h.1)

  or_dot-All : (s : Text) → All P s → All P (or_dot s)
  unfolding or_dot
  or_dot-All [] h = (on_dot, tt)
  or_dot-All (c ∷ s) h = h

  pub clean-All : (path : Text) → All P path → All P (clean path)
  unfolding clean
  clean-All path h = elim (Bool-cases (is_rooted path)) [
    | inl k ↦ rw k (on_slash, joined true)
    | inr k ↦ rw k (or_dot-All _ (joined false))
  ]
    where
      joined : (r : Bool) → All P (join (reverse (elements r [] (split path b'/'))))
      joined r =
          join-All _ (
            All-reverse (All P) _
              (elements-All r [] (split path b'/') tt (split-All P path b'/' h)))

-- So is a plain name in a plain directory.
pub clean_pair : (d e : Text) → IsPlain d → IsPlain e → clean (d ++ (b'/' ∷ e)) ≡ d ++ (b'/' ∷ e)
unfolding clean is_rooted elements push_element join or_dot
clean_pair [] e p q = absurd (p.nonempty refl)
clean_pair d [] p q = absurd (q.nonempty refl)
clean_pair (c ∷ d) (x ∷ e) p q = rw (split-append (c ∷ d) (x ∷ e) b'/' p.no_slash) (
    rw (split_none (x ∷ e) b'/' q.no_slash) (
      ground (
        arith,
        p.no_slash.0,
        str_eq_ne (c ∷ d) dot p.not_dot,
        str_eq_ne (c ∷ d) dot_dot p.not_dot_dot,
        str_eq_ne (x ∷ e) dot q.not_dot,
        str_eq_ne (x ∷ e) dot_dot q.not_dot_dot,
      )))

-- The elements of a joined path are those that were joined.
pub split-join :
    (e : Text) (es : List Text) → All (NoByte b'/') (e ∷ es) → split (join (e ∷ es)) b'/' ≡ e ∷ es
unfolding join
split-join e [] h = split_none e b'/' h.0
split-join e (f ∷ es) h =
    split-append e (join (f ∷ es)) b'/' h.0 ∙ ap (λ r. e ∷ r) (split-join f es h.1)

trim_slashes_none : (s : Text) → NoByte b'/' s → trim_slashes s ≡ s
unfolding trim_slashes
trim_slashes_none [] n = refl
trim_slashes_none (c ∷ s) n = rw (trim_slashes_none s n.1) (kept c s (is_empty s) n.0)
  where
    kept : (c : ℕ) (s : Text) (b : Bool) → c ≢ b'/' → (if b && c == b'/' then [] else c ∷ s) ≡ c ∷ s
    kept c s true h = ground arith
    kept c s false h = refl

-- A plain element is its own base.
pub base_plain : (e : Text) → IsPlain e → base e ≡ e
unfolding base
base_plain [] p = absurd (p.nonempty refl)
base_plain (c ∷ s) p =
    rw (trim_slashes_none (c ∷ s) p.no_slash, after_last_none (c ∷ s) b'/' p.no_slash) refl
