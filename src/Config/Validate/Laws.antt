-- ===== src/Config/Validate/Laws.antt =====
-- What a configuration that passes says.
use zip_extraction.Common.{
  ◌≡◌, refl, Bool, true, false, ◌||◌, none, List, [], ◌∷◌, arith, All, is_empty,
}
use zip_extraction.Common.Int.{ℤ, pos, ◌≤ℤ◌, ◌<ℤ◌, ltb_ℤ, gtb_ℤ}
use zip_extraction.Go.Strings.{Text}
use zip_extraction.Go.Float.{Float64, FloatOps}
use zip_extraction.Config.{Config}
use zip_extraction.Config.Validate.{
  Check, first_wrong, not_positive, must_be_positive, min_multipart_threshold, infra_checks,
  http_checks, sqs_checks, streaming_checks, logging_checks, sse_checks, bomb_defence_checks,
  retry_checks, checks, validate,
}

IsRight : Check → Type 0
IsRight c = c.0 ≡ false

first_wrong-none : (cs : List Check) → first_wrong cs ≡ none → All IsRight cs
unfolding first_wrong IsRight
first_wrong-none [] h = tt
first_wrong-none ((true, problem) ∷ cs) h = absurd (ground arith)
first_wrong-none ((false, problem) ∷ cs) h = (refl, first_wrong-none cs h)

positive : (a : ℤ) → not_positive a ≡ false → pos 0 <ℤ a
positive a h = ground arith

at_least : (a b : ℤ) → ltb_ℤ a b ≡ false → b ≤ℤ a
at_least a b h = ground arith

in_range :
    (a : ℤ) → (not_positive a || gtb_ℤ a (pos 65535)) ≡ false → (pos 0 <ℤ a) × (a ≤ℤ pos 65535)
in_range a h = ground arith

-- The limits that the other packages rely on.
pub record IsValid (c : Config) : Type 0 where
  pub compressed : pos 0 <ℤ c.bomb_defence.max_compressed_size_bytes
  pub extracted : pos 0 <ℤ c.bomb_defence.max_extracted_size_bytes
  pub entry_count : pos 0 <ℤ c.bomb_defence.max_entry_count
  pub depth : pos 0 <ℤ c.bomb_defence.max_directory_depth
  pub single : pos 0 <ℤ c.bomb_defence.max_single_file_size_bytes
  pub duration : pos 0 <ℤ c.bomb_defence.max_extraction_duration_sec
  pub declared : pos 0 <ℤ c.bomb_defence.max_total_declared_uncompressed_bytes
  pub buffer : pos 0 <ℤ c.streaming.max_in_memory_buffer_bytes
  pub multipart : min_multipart_threshold ≤ℤ c.streaming.multipart_threshold_bytes
  pub attempts : pos 0 <ℤ c.retry.max_attempts
  pub backoff : pos 0 <ℤ c.retry.backoff_base_millis
  pub heartbeat : pos 0 <ℤ c.sqs.heartbeat_interval_sec
  pub in_flight : pos 0 <ℤ c.sqs.max_in_flight
  pub shutdown : pos 0 <ℤ c.sqs.graceful_shutdown_timeout_sec
  pub port : (pos 0 <ℤ c.http.port) × (c.http.port ≤ℤ pos 65535)
  pub queue : is_empty c.infra.queue_url ≡ false
  pub bucket : is_empty c.infra.staging_bucket ≡ false
  pub table : is_empty c.infra.dynamo_table ≡ false

module _ (quote : Text → Text) (fl : FloatOps) (le : Float64 → Float64 → Bool) where
  -- A configuration that passes has positive limits, a port in range, and names for the queue, the
  -- bucket and the table.
  pub validate-IsValid : (c : Config) → validate quote fl le c ≡ none → IsValid c
  unfolding validate checks infra_checks http_checks logging_checks sse_checks bomb_defence_checks
      streaming_checks retry_checks sqs_checks must_be_positive IsRight
  validate-IsValid c h =
      let (
        queue,
        (
          bucket,
          (
            table,
            (
              port,
              (
                format,
                (
                  kms,
                  (
                    mode,
                    (
                      b1,
                      (
                        b2,
                        (
                          ratio,
                          (
                            b4,
                            (
                              b5,
                              (
                                b6,
                                (b7, (b8, (s1, (s2, (r1, (r2, (r3, (r4, (q1, (q2, (q3, _))))))))))),
                              ),
                            ),
                          ),
                        ),
                      ),
                    ),
                  ),
                ),
              ),
            ),
          ),
        ),
      ) =
        first_wrong-none (checks quote fl le c) h in
      record {
        compressed = positive _ b1;
        extracted = positive _ b2;
        entry_count = positive _ b4;
        depth = positive _ b5;
        single = positive _ b6;
        duration = positive _ b7;
        declared = positive _ b8;
        buffer = positive _ s1;
        multipart = at_least _ min_multipart_threshold s2;
        attempts = positive _ r1;
        backoff = positive _ r2;
        heartbeat = positive _ q1;
        in_flight = positive _ q2;
        shutdown = positive _ q3;
        port = in_range c.http.port port;
        queue = queue;
        bucket = bucket;
        table = table;
      }
