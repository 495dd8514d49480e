-- ===== src/Extraction/Describe.antt =====
-- services/zip-extraction/internal/extraction/describe.go: what is said of a failure's reason.
pub mod Laws
mod Tests
use zip_extraction.Common.{ℕ, String, Bool, ◌&&◌, not, List, [], ◌∷◌, ◌++◌, if◌then◌else◌, is_empty}
use zip_extraction.Go.Strings.{Text, text, str_eq, has_prefix, trim_prefix}
use zip_extraction.Go.Fmt.{decimal}

-- fmt.Sprintf("bomb-defence rule %d", rule)
unfoldable pub rule_reason : ℕ → Text
rule_reason rule = text "bomb-defence rule " ++ decimal rule

abbrev says : String → String → Text × Text
says reason description = (text reason, text description)

rule_table : List (Text × Text)
rule_table =
    says "bomb-defence rule 1" "rule 1: compressed archive size exceeds the configured cap"
    ∷ says "bomb-defence rule 2"
        "rule 2: cumulative extracted size exceeded the configured cap during streaming"
    ∷ says "bomb-defence rule 3"
        "rule 3: compression ratio exceeded the configured cap during streaming (likely zip bomb)"
    ∷ says "bomb-defence rule 4" "rule 4: archive contains more entries than the configured cap"
    ∷ says "bomb-defence rule 5" "rule 5: an entry's directory nesting depth exceeds the cap"
    ∷ says "bomb-defence rule 6" "rule 6: entry is a symbolic link, which is rejected for safety"
    ∷ says "bomb-defence rule 7"
        "rule 7: entry path is absolute (rejected — path traversal protection)"
    ∷ says "bomb-defence rule 8" "rule 8: entry path contains parent-directory traversal (..)"
    ∷ says "bomb-defence rule 9"
        "rule 9: a single entry's declared decompressed size exceeds the cap"
    ∷ says "bomb-defence rule 10"
        "rule 10: extraction did not complete within the configured time limit"
    ∷ says "bomb-defence rule 11"
        "rule 11: archive contains overlapping compressed-data ranges (Fifield-class non-recursive bomb)"
    ∷ says "bomb-defence rule 12"
        "rule 12: sum of declared uncompressed sizes exceeds the configured cap (honestly-declared bomb)"
    ∷ []

other_table : List (Text × Text)
other_table =
    says "path-traversal" "entry path contains parent-directory traversal (..)"
    ∷ says "absolute-path" "entry path is absolute or has a drive-letter prefix"
    ∷ says "empty-name" "entry name is empty after normalisation"
    ∷ says "invalid-filename"
        "entry filename contains invalid characters (control chars or oversize)"
    ∷ says "unsupported: encrypted-zip"
        "ZIP is encrypted; this service does not extract encrypted archives"
    ∷ says "unsupported: multi-disk"
        "ZIP is a multi-disk archive; this service only supports single-volume archives"
    ∷ says "unsupported: deflate64" "ZIP uses Deflate64 compression, which is not supported"
    ∷ says "retries exhausted: throttling"
        "AWS rate-limited the request 3 times in a row; usually transient — check throttle source"
    ∷ says "retries exhausted: 5xx"
        "AWS returned 5xx 3 times in a row; usually transient — check service health"
    ∷ says "retries exhausted: timeout" "AWS timed out 3 times in a row; check network latency"
    ∷ says "retries exhausted: network"
        "Network error to AWS 3 times in a row; check VPC egress / DNS"
    ∷ says "drain canceled" "pod received SIGTERM during this extraction; redelivery is idempotent"
    ∷ says "permanent: source-download-failed"
        "source archive could not be downloaded (4xx from S3 — likely missing or access denied)"
    ∷ []

-- the cases of the first `switch`, in order; the last argument is what follows it
find_case : Text → List (Text × Text) → Text → Text
find_case reason [] otherwise = otherwise
find_case reason ((r, description) ∷ rest) otherwise =
    if str_eq reason r then description else find_case reason rest otherwise

-- the second `switch`
describe_prefix : Text → Text
describe_prefix reason =
    if has_prefix reason (text "corrupt-zip")
    then text "ZIP central directory could not be parsed — archive is malformed or truncated"
    else if has_prefix reason (text "schema:")
    then text "SQS message did not match the expected claim-check schema (missing required field)"
    else if has_prefix reason (text "permanent:")
    then text "AWS returned a non-retryable error ("
      ++ (trim_prefix reason (text "permanent: ") ++ text ")")
    else if has_prefix reason (text "archive aborted:")
    then text "entry failed because the archive was aborted by a prior violation"
    else []

unfoldable pub describe_reason : Text → Text
unfolding rule_table other_table find_case describe_prefix
describe_reason reason =
    find_case reason rule_table (find_case reason other_table (describe_prefix reason))

unfoldable pub describe_failure : Text → Text → Text
describe_failure reason detail =
    let base = describe_reason reason in
    if not (is_empty base) && not (is_empty detail)
    then base ++ (text " — " ++ detail)
    else if not (is_empty base)
    then base
    else if not (is_empty detail)
    then detail
    else []
