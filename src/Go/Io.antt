-- ===== src/Go/Io.antt =====
-- Readers as Go's package `io` has them, over a state `R` of what is left to read.
use zip_extraction.Common.{ℕ, ◌+◌, ◌≤◌, Option, List, [], ◌∷◌, length}
use zip_extraction.Go.Strings.{Text}
use zip_extraction.Extraction.Errors.{Error}

-- The bytes read (Go's count is their number) and the error.
pub record ReadResult : Type 0 where
  pub bytes : Text
  pub err : Option Error

-- r.Read(p), for a buffer `p` of the given length
abbrev pub Reader : Type 0 → Type 0
Reader R = R → ℕ → ReadResult × R

-- io.Reader's contract: no more bytes than the buffer holds.
abbrev pub FitsBuffer : {R : Type 0} → Reader R → Type 0
FitsBuffer {R} read = (r : R) (n : ℕ) → length (read r n).0.bytes ≤ n

-- Reads with buffers of the given lengths, one after the other.
unfoldable pub read_each : {R : Type 0} → Reader R → R → List ℕ → List ReadResult × R
read_each read r [] = ([], r)
read_each read r (n ∷ ns) =
    let (res, r') = read r n in let (rest, last) = read_each read r' ns in (res ∷ rest, last)

unfoldable pub total : List ReadResult → ℕ
total [] = 0
total (res ∷ rest) = length res.bytes + total rest
