-- ===== src/Config/Validate.antt =====
-- Validate of config.go. It has a copy of the configuration, so that the value that it gives to
-- `visibility_timeout_sec` at its end is lost.
pub mod Laws
pub mod Samples
mod Tests
use zip_extraction.Common.{
  ℕ, ◌*◌, Bool, true, false, ◌&&◌, ◌||◌, not, Option, none, some, List, [], ◌∷◌, ◌++◌,
  if◌then◌else◌, is_empty,
}
use zip_extraction.Common.Int.{ℤ, pos, ltb_ℤ, gtb_ℤ}
use zip_extraction.Go.Strings.{Text, text, str_eq, to_lower}
use zip_extraction.Go.Fmt.{signed_decimal}
use zip_extraction.Go.Float.{Float64, FloatOps}
use zip_extraction.Extraction.Errors.{Error, plain}
use zip_extraction.Config.{
  InfraConfig, HttpConfig, LoggingConfig, SseConfig, BombDefenceConfig, StreamingConfig,
  RetryConfig, SqsConfig, Config,
}

-- A test that finds the configuration wrong, and its message.
abbrev pub Check : Type 0
Check = Bool × Text

unfoldable pub first_wrong : List Check → Option Error
first_wrong [] = none
first_wrong ((wrong, problem) ∷ rest) = if wrong then some (plain problem) else first_wrong rest

-- `a <= 0` of the source
abbrev pub not_positive : ℤ → Bool
not_positive a = not (gtb_ℤ a (pos 0))

must_be_positive : Text → ℤ → Check
must_be_positive name a =
    (not_positive a, name ++ (text ": " ++ (signed_decimal a ++ text " must be > 0")))

abbrev pub min_multipart_threshold : ℤ
min_multipart_threshold = pos (5 * 1024 * 1024)

infra_checks : InfraConfig → List Check
infra_checks c =
    (is_empty c.queue_url, text "infra.queueURL: required (env QUEUE_URL)")
    ∷ (is_empty c.staging_bucket, text "infra.stagingBucket: required (env STAGING_BUCKET)")
    ∷ (is_empty c.dynamo_table, text "infra.dynamoTable: required (env DYNAMO_TABLE)")
    ∷ []

http_checks : HttpConfig → List Check
http_checks c =
    (
      not_positive c.port || gtb_ℤ c.port (pos 65535),
      text "http.port: " ++ (signed_decimal c.port ++ text " out of range 1..65535"),
    )
    ∷ []

sqs_checks : SqsConfig → List Check
unfolding must_be_positive
sqs_checks c =
    must_be_positive (text "sqs.heartbeatIntervalSec") c.heartbeat_interval_sec
    ∷ must_be_positive (text "sqs.maxInFlight") c.max_in_flight
    ∷ must_be_positive (text "sqs.gracefulShutdownTimeoutSec") c.graceful_shutdown_timeout_sec
    ∷ []

streaming_checks : StreamingConfig → List Check
unfolding must_be_positive
streaming_checks c =
    must_be_positive (text "streaming.maxInMemoryBufferBytes") c.max_in_memory_buffer_bytes
    ∷ (
      ltb_ℤ c.multipart_threshold_bytes min_multipart_threshold,
      text "streaming.multipartThresholdBytes: "
          ++ (signed_decimal c.multipart_threshold_bytes
              ++ (text " must be >= "
                  ++ (signed_decimal min_multipart_threshold ++ text " (S3 multipart min)"))),
    )
    ∷ []

-- `quote` is the verb %q, `le` the test `a <= b` of floats
module _ (quote : Text → Text) (fl : FloatOps) (le : Float64 → Float64 → Bool) where
  logging_checks : LoggingConfig → List Check
  logging_checks c =
      (
        not (
            str_eq (to_lower c.format) (text "json")
            || str_eq (to_lower c.format) (text "console")),
        text "logging.format: " ++ (quote c.format ++ text " (want json|console)"),
      )
      ∷ []

  sse_checks : SseConfig → List Check
  sse_checks c =
      (
        str_eq c.mode (text "SSE-KMS") && is_empty c.kms_key_id,
        text "sse.kmsKeyId: required when sse.mode=SSE-KMS",
      )
      ∷ (
        not (str_eq c.mode (text "SSE-S3") || str_eq c.mode (text "SSE-KMS")),
        text "sse.mode: " ++ (quote c.mode ++ text " (want SSE-S3|SSE-KMS)"),
      )
      ∷ []

  bomb_defence_checks : BombDefenceConfig → List Check
  unfolding must_be_positive
  bomb_defence_checks c =
      must_be_positive (text "bombDefence.maxCompressedSizeBytes") c.max_compressed_size_bytes
      ∷ must_be_positive (text "bombDefence.maxExtractedSizeBytes") c.max_extracted_size_bytes
      ∷ (
        le c.max_compression_ratio (fl.of_int (pos 0)),
        text "bombDefence.maxCompressionRatio: "
            ++ (fl.print c.max_compression_ratio ++ text " must be > 0"),
      )
      ∷ must_be_positive (text "bombDefence.maxEntryCount") c.max_entry_count
      ∷ must_be_positive (text "bombDefence.maxDirectoryDepth") c.max_directory_depth
      ∷ must_be_positive (text "bombDefence.maxSingleFileSizeBytes") c.max_single_file_size_bytes
      ∷ must_be_positive (text "bombDefence.maxExtractionDurationSec") c.max_extraction_duration_sec
      ∷ must_be_positive (text "bombDefence.maxTotalDeclaredUncompressedBytes")
          c.max_total_declared_uncompressed_bytes
      ∷ []

  retry_checks : RetryConfig → List Check
  unfolding must_be_positive
  retry_checks c =
      must_be_positive (text "retry.maxAttempts") c.max_attempts
      ∷ must_be_positive (text "retry.backoffBaseMillis") c.backoff_base_millis
      ∷ (
        fl.lt c.backoff_factor (fl.of_int (pos 1)),
        text "retry.backoffFactor: " ++ (fl.print c.backoff_factor ++ text " must be >= 1.0"),
      )
      ∷ (
        fl.lt c.jitter_fraction (fl.of_int (pos 0)) || fl.lt (fl.of_int (pos 1)) c.jitter_fraction,
        text "retry.jitterFraction: " ++ (fl.print c.jitter_fraction ++ text " must be in [0, 1]"),
      )
      ∷ []

  unfoldable pub checks : Config → List Check
  unfolding infra_checks http_checks logging_checks sse_checks bomb_defence_checks streaming_checks
      retry_checks sqs_checks
  checks c =
      infra_checks c.infra
      ++ (http_checks c.http
          ++ (logging_checks c.logging
              ++ (sse_checks c.sse
                  ++ (bomb_defence_checks c.bomb_defence
                      ++ (streaming_checks c.streaming
                          ++ (retry_checks c.retry ++ sqs_checks c.sqs))))))

  -- the method Validate
  unfoldable pub validate : Config → Option Error
  unfolding first_wrong checks
  validate c = first_wrong (checks c)
