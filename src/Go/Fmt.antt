-- ===== src/Go/Fmt.antt =====
-- The verbs of Go's package `fmt` that the service's keys and messages are made with.
pub mod Laws
use zip_extraction.Common.{
  ℕ, zero, suc, ◌+◌, ◌-◌, ◌*◌, ◌/◌, ◌%◌, Bool, true, false, ◌&&◌, Option, none, some, leb, List, [],
  ◌∷◌, ◌++◌, ltb, ◌==◌, if◌then◌else◌, length,
}
use zip_extraction.Common.Int.{ℤ, pos, negsuc, two63}
use zip_extraction.Go.Strings.{Text}

-- Each round takes one digit off; `n` rounds are enough.
unfoldable pub dec_loop : ℕ → ℕ → Text → Text
dec_loop zero n acc = acc
dec_loop (suc f) n acc =
    let rest = dec_loop f (n / 10) ((b'0' + n % 10) ∷ acc) in if n == 0 then acc else rest

-- %d of a number that is not negative
unfoldable pub decimal : ℕ → Text
unfolding dec_loop
decimal n = if n == 0 then b'0' ∷ [] else dec_loop n n []

-- %d
unfoldable pub signed_decimal : ℤ → Text
unfolding decimal
signed_decimal (pos n) = decimal n
signed_decimal (negsuc n) = b'-' ∷ decimal (suc n)

zeros : ℕ → Text → Text
zeros zero s = s
zeros (suc n) s = b'0' ∷ zeros n s

-- %04d of a number that is not negative
unfoldable pub decimal4 : ℕ → Text
unfolding decimal zeros
decimal4 n = let s = decimal n in zeros (4 - length s) s

-- The number that digits stand for, after those that made `v`.
unfoldable pub number : ℕ → Text → ℕ
number v [] = v
number v (c ∷ s) = number (v * 10 + (c - b'0')) s

-- the digits at the beginning
unfoldable pub digits : Text → Text
digits [] = []
digits (c ∷ s) = let rest = digits s in if leb b'0' c && leb c b'9' then c ∷ rest else []

in_int64 : Bool → ℕ → Option ℤ
in_int64 false n = if ltb n two63 then some (pos n) else none
in_int64 true zero = some (pos 0)
in_int64 true (suc n) = if ltb n two63 then some (negsuc n) else none

scan_digits : Bool → Text → Option ℤ
scan_digits negative [] = none
scan_digits negative (c ∷ s) = in_int64 negative (number 0 (c ∷ s))

scan_sign : Text → Option ℤ
scan_sign [] = none
scan_sign (c ∷ s) =
    if c == b'-'
    then scan_digits true (digits s)
    else if c == b'+'
    then scan_digits false (digits s)
    else scan_digits false (digits (c ∷ s))

skip_spaces : Text → Text
skip_spaces [] = []
skip_spaces (c ∷ s) = let rest = skip_spaces s in if c == b' ' then rest else c ∷ s

-- fmt.Sscanf(s, "%d", &out) for an int64 `out`; none is an error
unfoldable pub scan_int64 : Text → Option ℤ
unfolding scan_sign scan_digits in_int64 number digits skip_spaces
scan_int64 s = scan_sign (skip_spaces s)
