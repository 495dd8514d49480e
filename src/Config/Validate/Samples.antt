-- ===== src/Config/Validate/Samples.antt =====
-- A configuration that passes, for tests.
use zip_extraction.Common.{ltb, []}
use zip_extraction.Common.Int.{pos, negsuc}
use zip_extraction.Go.Strings.{Text, text}
use zip_extraction.Go.Float.{FloatOps}
use zip_extraction.Config.{Config}

abbrev pub quote : Text → Text
quote s = s

abbrev pub floats : FloatOps
floats = record {
  of_int = λ a. elim a [ pos n ↦ n | negsuc n ↦ 0 ];
  to_int = pos;
  add = λ a b. a;
  sub = λ a b. a;
  mul = λ a b. a;
  div = λ a b. a;
  pow = λ a b. a;
  lt = ltb;
  print = λ a. [];
  print2 = λ a. [];
}

abbrev pub config : Config
config = record {
  infra = record {
    region = text "eu-west-1";
    aws_endpoint_url = [];
    queue_url = text "q";
    staging_bucket = text "b";
    dynamo_table = text "t";
  };
  http = record { port = pos 8080 };
  logging = record { format = text "JSON"; level = text "info" };
  sse = record { mode = text "SSE-S3"; kms_key_id = [] };
  bomb_defence = record {
    max_compressed_size_bytes = pos 1000;
    max_extracted_size_bytes = pos 1000;
    max_compression_ratio = 100;
    max_entry_count = pos 10;
    max_directory_depth = pos 3;
    max_single_file_size_bytes = pos 100;
    max_extraction_duration_sec = pos 240;
    max_total_declared_uncompressed_bytes = pos 5000;
  };
  streaming = record {
    max_in_memory_buffer_bytes = pos 1000;
    multipart_threshold_bytes = pos 8388608;
  };
  retry = record {
    max_attempts = pos 3;
    backoff_base_millis = pos 100;
    backoff_factor = 2;
    jitter_fraction = 0;
  };
  sqs = record {
    heartbeat_interval_sec = pos 30;
    max_in_flight = pos 1;
    graceful_shutdown_timeout_sec = pos 25;
    visibility_timeout_sec = pos 0;
  };
  classification = record { url = []; timeout_sec = pos 5; default_workspace = [] };
}
