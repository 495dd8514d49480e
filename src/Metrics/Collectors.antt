-- ===== src/Metrics/Collectors.antt =====
-- New and the methods of metrics.go: the collectors that are registered, and what each method does to
-- one of them. The collectors themselves are Prometheus's.
pub mod Registered
use zip_extraction.Common.{ℕ, zero, suc, ◌/◌, ◌%◌, Bool, true, false, List, [], ◌∷◌, if◌then◌else◌}
use zip_extraction.Common.Int.{ℤ, pos, negsuc}
use zip_extraction.Go.Strings.{Text, text}
use zip_extraction.Go.Float.{Float64, FloatOps}
use zip_extraction.Extraction.Service.Effects.{
  Metric, entry_processed, extraction_duration, extraction_failure, bomb_rejection, bytes_extracted,
  partial_failure, redelivery_skip, slipsheet_write_failure, classification_success,
  classification_failure,
}
use zip_extraction.Metrics.{itoa}

pub data Kind : Type 0 where
  counter histogram : Kind

pub record Collector : Type 0 where
  pub kind : Kind
  pub name : Text
  pub help : Text
  pub labels : List Text
  pub buckets : List ℕ

counter_vec : Text → Text → List Text → Collector
counter_vec name help labels = record {
  kind = counter;
  name = name;
  help = help;
  labels = labels;
  buckets = [];
}

-- the collectors in the order in which New registers them
unfoldable pub collectors : List Collector
unfolding counter_vec
collectors =
    counter_vec (text "zip_entries_total")
      (text "Number of zip entries processed, by terminal entry status.") (text "status" ∷ [])
    ∷ record {
      kind = histogram;
      name = text "zip_extraction_duration_seconds";
      help = text "End-to-end extraction duration, by terminal outcome.";
      labels = text "outcome" ∷ [];
      buckets = 1 ∷ 5 ∷ 15 ∷ 30 ∷ 60 ∷ 120 ∷ 180 ∷ 220 ∷ 240 ∷ [];
    }
    ∷ counter_vec (text "zip_extraction_failures_total")
        (text "Count of FAILED pipeline executions, by failure reason.") (text "reason" ∷ [])
    ∷ counter_vec (text "zip_bomb_rejections_total")
        (text "Count of bomb-defence rejections, by FR-7 rule number.") (text "rule" ∷ [])
    ∷ counter_vec (text "extracted_bytes_total")
        (text "Total decompressed bytes successfully uploaded to S3.") []
    ∷ counter_vec (text "partial_failures_total")
        (text "Count of PARTIAL_FAILED pipeline executions.") []
    ∷ counter_vec (text "redelivery_skips_total")
        (text
          "Count of DynamoDB ConditionalCheckFailedException occurrences (idempotent re-delivery indicator).")
        []
    ∷ counter_vec (text "slipsheet_write_failures_total")
        (text "Count of slipsheet S3 write failures.") []
    ∷ counter_vec (text "classification_calls_total")
        (text "Count of successful classification calls, by returned category.")
        (text "category" ∷ [])
    ∷ counter_vec (text "classification_failures_total")
        (text "Count of classification call failures, by failure reason (download | http).")
        (text "reason" ∷ [])
    ∷ []

pub data Update : Type 0 where
  inc : Update
  add : Float64 → Update
  observe : Float64 → Update

-- `WithLabelValues(labels...)` of a collector, and the method that is called on the result
pub record Sample : Type 0 where
  pub collector : Text
  pub labels : List Text
  pub update : Update

increment : Text → List Text → Sample
increment collector labels = record { collector = collector; labels = labels; update = inc }

minus : ℕ → ℤ
minus zero = pos 0
minus (suc n) = negsuc n

-- d / time.Second and d % time.Second, both rounded towards 0
split_seconds : ℤ → ℤ × ℤ
unfolding minus
split_seconds (pos n) = (pos (n / 1000000000), pos (n % 1000000000))
split_seconds (negsuc n) = (minus (suc n / 1000000000), minus (suc n % 1000000000))

module _ (fl : FloatOps) where
  -- d.Seconds()
  seconds : ℤ → Float64
  unfolding split_seconds
  seconds d =
      let (sec, nsec) = split_seconds d in
      fl.add (fl.of_int sec) (fl.div (fl.of_int nsec) (fl.of_int (pos 1000000000)))

  -- the methods
  unfoldable pub sample : Metric → Sample
  unfolding increment seconds
  sample (entry_processed status) = increment (text "zip_entries_total") (status ∷ [])
  sample (extraction_duration d outcome) = record {
    collector = text "zip_extraction_duration_seconds";
    labels = outcome ∷ [];
    update = observe (seconds d);
  }
  sample (extraction_failure reason) =
      increment (text "zip_extraction_failures_total") (reason ∷ [])
  sample (bomb_rejection rule) = increment (text "zip_bomb_rejections_total") (itoa (pos rule) ∷ [])
  sample (bytes_extracted n) = record {
    collector = text "extracted_bytes_total";
    labels = [];
    update = add (fl.of_int n);
  }
  sample partial_failure = increment (text "partial_failures_total") []
  sample redelivery_skip = increment (text "redelivery_skips_total") []
  sample slipsheet_write_failure = increment (text "slipsheet_write_failures_total") []
  sample (classification_success category) =
      increment (text "classification_calls_total") (category ∷ [])
  sample (classification_failure reason) =
      increment (text "classification_failures_total") (reason ∷ [])
