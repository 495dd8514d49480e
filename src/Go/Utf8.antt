-- ===== src/Go/Utf8.antt =====
-- Decoding of UTF-8 as Go's package `unicode/utf8` and `range` over a string do it.
pub mod Laws
use zip_extraction.Common.{
  ℕ, zero, suc, ◌+◌, ◌-◌, ◌*◌, ◌%◌, Bool, true, false, ◌&&◌, List, [], ◌∷◌, ltb, leb, ◌==◌,
  if◌then◌else◌,
}
use zip_extraction.Go.Strings.{Text}

-- A rune, how many bytes follow its first one, and whether the bytes were valid.
pub record Decoded : Type 0 where
  pub rune : ℕ
  pub more : ℕ
  pub valid : Bool

-- utf8.RuneError, with a width of one byte
abbrev pub invalid : Decoded
invalid = record { rune = 0xfffd; more = 0; valid = false }

abbrev between : ℕ → ℕ → ℕ → Bool
between lo hi c = leb lo c && leb c hi

two_bytes : ℕ → Text → Decoded
two_bytes c [] = invalid
two_bytes c (b ∷ s) =
    if between 0x80 0xbf b
    then record { rune = c % 32 * 64 + b % 64; more = 1; valid = true }
    else invalid

three_bytes : ℕ → Text → Decoded
three_bytes c (b ∷ d ∷ s) =
    if between (if c == 0xe0 then 0xa0 else 0x80) (if c == 0xed then 0x9f else 0xbf) b
      && between 0x80 0xbf d
    then record { rune = c % 16 * 4096 + b % 64 * 64 + d % 64; more = 2; valid = true }
    else invalid
three_bytes c _ = invalid

four_bytes : ℕ → Text → Decoded
four_bytes c (b ∷ d ∷ e ∷ s) =
    if between (if c == 0xf0 then 0x90 else 0x80) (if c == 0xf4 then 0x8f else 0xbf) b
      && (between 0x80 0xbf d && between 0x80 0xbf e)
    then record {
      rune = c % 8 * 262144 + b % 64 * 4096 + d % 64 * 64 + e % 64;
      more = 3;
      valid = true;
    }
    else invalid
four_bytes c _ = invalid

-- utf8.DecodeRuneInString of the string with first byte `c`
decode_rune : ℕ → Text → Decoded
unfolding two_bytes three_bytes four_bytes
decode_rune c s =
    if ltb c 0x80
    then record { rune = c; more = 0; valid = true }
    else if ltb c 0xc2
    then invalid
    else if ltb c 0xe0
    then two_bytes c s
    else if ltb c 0xf0
    then three_bytes c s
    else if ltb c 0xf5
    then four_bytes c s
    else invalid

-- `skip` bytes belong to the rune before.
valid_from : ℕ → Text → Bool
valid_from skip [] = true
valid_from (suc k) (c ∷ s) = valid_from k s
valid_from zero (c ∷ s) = let d = decode_rune c s in d.valid && valid_from d.more s

-- utf8.ValidString
unfoldable pub valid_string : Text → Bool
unfolding valid_from decode_rune
valid_string s = valid_from 0 s

runes_from : ℕ → Text → List ℕ
runes_from skip [] = []
runes_from (suc k) (c ∷ s) = runes_from k s
runes_from zero (c ∷ s) = let d = decode_rune c s in d.rune ∷ runes_from d.more s

-- the runes of `for _, r := range s`
unfoldable pub runes : Text → List ℕ
unfolding runes_from decode_rune
runes s = runes_from 0 s
