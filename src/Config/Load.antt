-- ===== src/Config/Load.antt =====
-- Load of config.go: the environment, the YAML file, and Validate. The environment is what
-- os.LookupEnv answers; opening and decoding the file are parameters.
pub mod Laws
pub mod Samples
mod Tests
use zip_extraction.Common.{
  Bool, true, false, Option, none, some, List, [], ◌∷◌, ◌++◌, if◌then◌else◌, is_empty,
}
use zip_extraction.Common.Int.{ℤ, pos}
use zip_extraction.Go.Strings.{Text, text}
use zip_extraction.Go.Strconv.{atoi}
use zip_extraction.Go.Float.{Float64, FloatOps}
use zip_extraction.Extraction.Errors.{Error, wrap, Try, ok, fail}
use zip_extraction.Config.{Config}
use zip_extraction.Config.Validate.{validate}

abbrev pub Environment : Type 0
Environment = Text → Option Text

-- os.Getenv
unfoldable pub getenv : Environment → Text → Text
getenv env key = elim (env key) [ none ↦ [] | some v ↦ v ]

non_empty_or : Text → Option Text → Text
non_empty_or default none = default
non_empty_or default (some v) = if is_empty v then default else v

unfoldable pub get_env_default : Environment → Text → Text → Text
unfolding non_empty_or
get_env_default env key default = non_empty_or default (env key)

-- the zero value of a Config
unfoldable pub zero_config : Config
zero_config = record {
  infra = record {
    region = [];
    aws_endpoint_url = [];
    queue_url = [];
    staging_bucket = [];
    dynamo_table = [];
  };
  http = record { port = pos 0 };
  logging = record { format = []; level = [] };
  sse = record { mode = []; kms_key_id = [] };
  bomb_defence = record {
    max_compressed_size_bytes = pos 0;
    max_extracted_size_bytes = pos 0;
    max_compression_ratio = 0;
    max_entry_count = pos 0;
    max_directory_depth = pos 0;
    max_single_file_size_bytes = pos 0;
    max_extraction_duration_sec = pos 0;
    max_total_declared_uncompressed_bytes = pos 0;
  };
  streaming = record { max_in_memory_buffer_bytes = pos 0; multipart_threshold_bytes = pos 0 };
  retry = record {
    max_attempts = pos 0;
    backoff_base_millis = pos 0;
    backoff_factor = 0;
    jitter_fraction = 0;
  };
  sqs = record {
    heartbeat_interval_sec = pos 0;
    max_in_flight = pos 0;
    graceful_shutdown_timeout_sec = pos 0;
    visibility_timeout_sec = pos 0;
  };
  classification = record { url = []; timeout_sec = pos 0; default_workspace = [] };
}

-- the configuration before the YAML file, with the port that was read
unfoldable pub from_environment : Environment → ℤ → Config
unfolding zero_config getenv get_env_default
from_environment env port = record zero_config {
  infra = record {
    region = get_env_default env (text "AWS_REGION") (text "eu-west-1");
    aws_endpoint_url = getenv env (text "AWS_ENDPOINT_URL");
    queue_url = getenv env (text "QUEUE_URL");
    staging_bucket = getenv env (text "STAGING_BUCKET");
    dynamo_table = get_env_default env (text "DYNAMO_TABLE") (text "pipeline_files");
  };
  http = record { port = port };
  logging = record {
    format = get_env_default env (text "LOG_FORMAT") (text "json");
    level = get_env_default env (text "LOG_LEVEL") (text "info");
  };
  sse = record {
    mode = get_env_default env (text "SSE_MODE") (text "SSE-S3");
    kms_key_id = getenv env (text "SSE_KMS_KEY_ID");
  };
  classification = record {
    url = getenv env (text "CLASSIFICATION_URL");
    timeout_sec = pos 0;
    default_workspace = getenv env (text "CLASSIFICATION_DEFAULT_WORKSPACE");
  };
}

-- `quote` is the verb %q.
module _ (quote : Text → Text) where
  parsed_or : Text → Text → Try ℤ → Try ℤ
  parsed_or key v (ok n) = ok n
  parsed_or key v (fail e) =
      fail (wrap (key ++ (text ": " ++ (quote v ++ text " is not an integer: "))) e)

  parse_non_empty : Text → ℤ → Option Text → Try ℤ
  unfolding parsed_or
  parse_non_empty key default none = ok default
  parse_non_empty key default (some v) =
      if is_empty v then ok default else parsed_or key v (atoi quote v)

  unfoldable pub parse_env_int : Environment → Text → ℤ → Try ℤ
  unfolding parse_non_empty
  parse_env_int env key default = parse_non_empty key default (env key)

  -- `open` is os.Open, and `decode` the strict decoder of YAML, which sets fields of a Config.
  module _ {F : Type 0} (open_file : Text → Try F) (decode : F → Config → Try Config) where
    decoded : Try Config → Try Config
    decoded (ok c) = ok c
    decoded (fail e) = fail (wrap (text "decode: ") e)

    opened : Config → Try F → Try Config
    opened c (ok f) = decoded (decode f c)
    opened c (fail e) = fail (wrap (text "open: ") e)

    unfoldable pub load_yaml : Text → Config → Try Config
    unfolding opened decoded
    load_yaml path c = opened c (open_file path)

    module _ (fl : FloatOps) (le : Float64 → Float64 → Bool) where
      valid_or : Config → Option Error → Try Config
      valid_or c none = ok c
      valid_or c (some e) = fail (wrap (text "config: validate: ") e)

      unfoldable pub after_yaml : Text → Try Config → Try Config
      unfolding valid_or
      after_yaml path (fail e) = fail (wrap (text "config: load yaml " ++ (path ++ text ": ")) e)
      after_yaml path (ok c) = valid_or c (validate quote fl le c)

      unfoldable pub after_port : Environment → Try ℤ → Try Config
      unfolding after_yaml
      after_port env (fail e) = fail (wrap (text "config: ") e)
      after_port env (ok port) =
          let path =
            get_env_default env (text "CONFIG_PATH") (text "/etc/zip-extraction/config.yaml") in
          after_yaml path (load_yaml path (from_environment env port))

      unfoldable pub load : Environment → Try Config
      unfolding after_port
      load env = after_port env (parse_env_int env (text "HTTP_PORT") (pos 8080))
