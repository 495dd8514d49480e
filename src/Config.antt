-- ===== src/Config.antt =====
-- services/zip-extraction/internal/config/config.go: the configuration. `Validate` is a child.
pub mod Validate
pub mod Load
use zip_extraction.Common.Int.{ℤ}
use zip_extraction.Go.Strings.{Text}
use zip_extraction.Go.Float.{Float64}

pub record InfraConfig : Type 0 where
  pub region : Text
  pub aws_endpoint_url : Text
  pub queue_url : Text
  pub staging_bucket : Text
  pub dynamo_table : Text

pub record HttpConfig : Type 0 where
  pub port : ℤ

pub record LoggingConfig : Type 0 where
  pub format : Text
  pub level : Text

pub record SseConfig : Type 0 where
  pub mode : Text
  pub kms_key_id : Text

pub record BombDefenceConfig : Type 0 where
  pub max_compressed_size_bytes : ℤ
  pub max_extracted_size_bytes : ℤ
  pub max_compression_ratio : Float64
  pub max_entry_count : ℤ
  pub max_directory_depth : ℤ
  pub max_single_file_size_bytes : ℤ
  pub max_extraction_duration_sec : ℤ
  pub max_total_declared_uncompressed_bytes : ℤ

pub record StreamingConfig : Type 0 where
  pub max_in_memory_buffer_bytes : ℤ
  pub multipart_threshold_bytes : ℤ

pub record RetryConfig : Type 0 where
  pub max_attempts : ℤ
  pub backoff_base_millis : ℤ
  pub backoff_factor : Float64
  pub jitter_fraction : Float64

pub record SqsConfig : Type 0 where
  pub heartbeat_interval_sec : ℤ
  pub max_in_flight : ℤ
  pub graceful_shutdown_timeout_sec : ℤ
  pub visibility_timeout_sec : ℤ

pub record ClassificationConfig : Type 0 where
  pub url : Text
  pub timeout_sec : ℤ
  pub default_workspace : Text

pub record Config : Type 0 where
  pub infra : InfraConfig
  pub http : HttpConfig
  pub logging : LoggingConfig
  pub sse : SseConfig
  pub bomb_defence : BombDefenceConfig
  pub streaming : StreamingConfig
  pub retry : RetryConfig
  pub sqs : SqsConfig
  pub classification : ClassificationConfig
