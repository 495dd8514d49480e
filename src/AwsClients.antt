-- ===== src/AwsClients.antt =====
-- services/zip-extraction/internal/awsclients/awsclients.go: the options that the clients are built
-- with. `default_config` is the SDK's LoadDefaultConfig.
use zip_extraction.Common.{ℕ, Bool, true, false, Option, none, some, if◌then◌else◌, is_empty}
use zip_extraction.Go.Strings.{Text, text}
use zip_extraction.Config.{InfraConfig}
use zip_extraction.Extraction.Errors.{plain, wrap, Try, ok, fail}

-- the options of LoadDefaultConfig
pub record LoadOptions : Type 0 where
  pub region : Text
  pub adaptive_retry_mode : Bool
  pub retry_max_attempts : ℕ

-- what is set on the options of one service
pub record ClientOptions : Type 0 where
  pub base_endpoint : Option Text
  pub use_path_style : Bool

pub record ClientSet (A : Type 0) : Type 0 where
  pub aws_config : A
  pub sqs : ClientOptions
  pub s3 : ClientOptions
  pub dynamo_db : ClientOptions

abbrev load_options : Text → LoadOptions
load_options region = record { region = region; adaptive_retry_mode = true; retry_max_attempts = 3 }

client_options : Text → Bool → ClientOptions
client_options endpoint path_style =
    if is_empty endpoint
    then record { base_endpoint = none; use_path_style = false }
    else record { base_endpoint = some endpoint; use_path_style = path_style }

client_set : {A : Type 0} → InfraConfig → Try A → Try (ClientSet A)
unfolding client_options
client_set cfg (fail e) = fail (wrap (text "awsclients: load default config: ") e)
client_set cfg (ok aws_config) = ok (record {
  aws_config = aws_config;
  sqs = client_options cfg.aws_endpoint_url false;
  s3 = client_options cfg.aws_endpoint_url true;
  dynamo_db = client_options cfg.aws_endpoint_url false;
})

unfoldable pub build : {A : Type 0} → (LoadOptions → Try A) → InfraConfig → Try (ClientSet A)
unfolding client_set
build default_config cfg =
    if is_empty cfg.region
    then fail (plain (text "awsclients: region is required"))
    else client_set cfg (default_config (load_options cfg.region))
