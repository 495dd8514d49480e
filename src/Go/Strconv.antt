-- ===== src/Go/Strconv.antt =====
-- strconv.Atoi of an int of 64 bits.
pub mod Laws
use zip_extraction.Common.{
  ℕ, zero, suc, ◌+◌, ◌-◌, ◌*◌, Bool, true, false, ◌&&◌, Option, none, some, List, [], ◌∷◌, ◌++◌,
  ltb, leb, ◌==◌, if◌then◌else◌,
}
use zip_extraction.Common.Int.{ℤ, pos, negsuc, two63, two64}
use zip_extraction.Go.Strings.{Text, text}
use zip_extraction.Extraction.Errors.{Error, plain, Try, ok, fail}

-- What strconv.ParseUint finds: ErrSyntax, ErrRange, or the number.
pub data Parsed : Type 0 where
  syntax : Parsed
  range : Parsed
  value : ℕ → Parsed

-- the loop over the digits, after those that made `n`
unfoldable pub parse_digits : ℕ → Text → Parsed
parse_digits n [] = value n
parse_digits n (c ∷ s) =
    let n1 = n * 10 + (c - b'0') in
    let rest = parse_digits n1 s in
    if leb b'0' c && leb c b'9' then (if ltb n1 two64 then rest else range) else syntax

unfoldable pub parse_uint : Text → Parsed
unfolding parse_digits
parse_uint [] = syntax
parse_uint (c ∷ s) = parse_digits 0 (c ∷ s)

module _ (quote : Text → Text) (s : Text) where
  -- a *strconv.NumError
  num_error : Text → Error
  num_error problem = plain (text "strconv.Atoi: parsing " ++ (quote s ++ (text ": " ++ problem)))

  unfoldable pub signed : Bool → Parsed → Try ℤ
  unfolding num_error
  signed negative syntax = fail (num_error (text "invalid syntax"))
  signed negative range = fail (num_error (text "value out of range"))
  signed false (value n) =
      if ltb n two63 then ok (pos n) else fail (num_error (text "value out of range"))
  signed true (value zero) = ok (pos 0)
  signed true (value (suc n)) =
      if ltb n two63 then ok (negsuc n) else fail (num_error (text "value out of range"))

  unfoldable pub atoi_signed : Text → Try ℤ
  unfolding signed
  atoi_signed [] = fail (num_error (text "invalid syntax"))
  atoi_signed (c ∷ r) =
      if c == b'-'
      then signed true (parse_uint r)
      else if c == b'+'
      then signed false (parse_uint r)
      else signed false (parse_uint (c ∷ r))

unfoldable pub atoi : (Text → Text) → Text → Try ℤ
unfolding atoi_signed
atoi quote s = atoi_signed quote s s
