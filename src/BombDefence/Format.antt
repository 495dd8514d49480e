-- ===== src/BombDefence/Format.antt =====
-- bombdefence/format.go and the message of rule 11.
use zip_extraction.Common.{◌++◌}
use zip_extraction.Common.Int.{ℤ}
use zip_extraction.Go.Strings.{Text, text}
use zip_extraction.Go.Fmt.{decimal, signed_decimal}
use zip_extraction.Go.Float.{Float64, FloatOps}
use zip_extraction.Extraction.Types.{EntryDataRange}

-- formatExceeded, and formatExceededInt, which prints an `int` in the same way
pub format_exceeded : Text → ℤ → ℤ → Text
format_exceeded label actual limit =
    label ++ (text " " ++ (signed_decimal actual ++ (text " exceeds cap " ++ signed_decimal limit)))

pub format_ratio_exceeded : FloatOps → Float64 → Float64 → Text
format_ratio_exceeded fl actual limit =
    text "compression ratio "
    ++ (fl.print2 actual ++ (text "x exceeds cap " ++ (fl.print2 limit ++ text "x")))

interval : EntryDataRange → Text
interval r =
    text "entry "
    ++ (decimal r.entry_index
        ++ (text " ["
            ++ (signed_decimal r.start ++ (text "," ++ (signed_decimal r.end ++ text ")")))))

pub format_overlap : EntryDataRange → EntryDataRange → Text
format_overlap prev cur =
    text "overlapping compressed data: " ++ (interval prev ++ (text " overlaps " ++ interval cur))
