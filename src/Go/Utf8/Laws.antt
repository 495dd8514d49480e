-- ===== src/Go/Utf8/Laws.antt =====
-- In a valid string the runes below 0x80 are bytes: a test that no rune below 0x80 passes rejects
-- no more and no less than the same test on bytes.
use zip_extraction.Common.{
  ℕ, zero, suc, ◌≤◌, ◌<◌, ◌≡◌, refl, Bool, true, false, ◌||◌, [], ◌∷◌, arith, ltb, ◌==◌, All, any,
  Bool-cases, inl, inr,
}
use zip_extraction.Go.Strings.{Text}
use zip_extraction.Go.Utf8.{decode_rune, valid_from, valid_string, runes_from, runes}

-- The first `k` bytes are continuation bytes.
abbrev Continues : ℕ → Text → Type 0
Continues zero s = Unit
Continues (suc k) [] = ⊥
Continues (suc k) (c ∷ s) = (0x80 ≤ c) × Continues k s

abbrev ascii_control : ℕ → Bool
ascii_control r = ltb r 0x20 || r == 0x7f

abbrev pub IsPrintable : ℕ → Type 0
IsPrintable c = ascii_control c ≡ false

decode_rune-Continues :
    (c : ℕ) (s : Text)
    → (decode_rune c s).valid ≡ true
    → ascii_control (decode_rune c s).rune ≡ false
    → IsPrintable c × Continues (decode_rune c s).more s
unfolding decode_rune
decode_rune-Continues c [] v r = ground arith
decode_rune-Continues c (b ∷ []) v r = ground arith
decode_rune-Continues c (b ∷ d ∷ []) v r = ground arith
decode_rune-Continues c (b ∷ d ∷ e ∷ s) v r = ground arith

IsPrintable-from :
    (k : ℕ) (s : Text)
    → valid_from k s ≡ true
    → any ascii_control (runes_from k s) ≡ false
    → Continues k s
    → All IsPrintable s
unfolding valid_from runes_from
IsPrintable-from k [] v r h = tt
IsPrintable-from (suc k) (c ∷ s) v r h = (ground arith, IsPrintable-from k s v r h.1)
IsPrintable-from zero (c ∷ s) v r h =
    let p = decode_rune-Continues c s (ground arith) (ground arith) in
    (p.0, IsPrintable-from (decode_rune c s).more s (ground arith) (ground arith) p.1)

-- A valid string none of whose runes is a control character has no control byte.
pub IsPrintable-of_runes :
    (s : Text)
    → valid_string s ≡ true
    → any (λ r. ltb r 0x20 || r == 0x7f) (runes s) ≡ false
    → All IsPrintable s
unfolding valid_string runes
IsPrintable-of_runes s v r = IsPrintable-from 0 s v r tt

decode_rune-ge : (c : ℕ) (s : Text) → 0x80 ≤ c → 0x80 ≤ (decode_rune c s).rune
unfolding decode_rune
decode_rune-ge c [] h = ground arith
decode_rune-ge c (b ∷ []) h = ground arith
decode_rune-ge c (b ∷ d ∷ []) h = ground arith
decode_rune-ge c (b ∷ d ∷ e ∷ s) h = ground arith

decode_rune_ascii : (c : ℕ) (s : Text) → c < 0x80 → (decode_rune c s).rune ≡ c
unfolding decode_rune
decode_rune_ascii c s h = ground arith

rune_printable : (c : ℕ) (s : Text) → IsPrintable c → ascii_control (decode_rune c s).rune ≡ false
rune_printable c s h = elim (Bool-cases (ltb c 0x80)) [
  | inl k ↦ rw (decode_rune_ascii c s (ground arith)) h
  | inr k ↦ ground (arith, decode_rune-ge c s)
]

runes_from_printable :
    (k : ℕ) (s : Text) → All IsPrintable s → any ascii_control (runes_from k s) ≡ false
unfolding runes_from
runes_from_printable k [] h = refl
runes_from_printable (suc k) (c ∷ s) h = runes_from_printable k s h.1
runes_from_printable zero (c ∷ s) h =
    ground (arith, rune_printable c s h.0, runes_from_printable (decode_rune c s).more s h.1)

-- A string with no control byte has no control rune, valid or not.
pub runes_of_IsPrintable :
    (s : Text) → All IsPrintable s → any (λ r. ltb r 0x20 || r == 0x7f) (runes s) ≡ false
unfolding runes
runes_of_IsPrintable s h = runes_from_printable 0 s h
