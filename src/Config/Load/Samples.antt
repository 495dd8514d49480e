-- ===== src/Config/Load/Samples.antt =====
-- An environment and a file that make a configuration, for tests.
use zip_extraction.Common.{◌≡◌, refl, none, some, leb, if◌then◌else◌}
use zip_extraction.Common.Int.{pos}
use zip_extraction.Go.Strings.{Text, text, str_eq, to_lower}
use zip_extraction.Go.Strconv.{atoi, parse_uint}
use zip_extraction.Go.Fmt.{signed_decimal}
use zip_extraction.Extraction.Errors.{Try, ok}
use zip_extraction.Config.{Config}
use zip_extraction.Config.Validate.{validate, first_wrong, checks}
use zip_extraction.Config.Validate.Samples.{quote, floats, config}
use zip_extraction.Config.Load.{
  Environment, load, parse_env_int, load_yaml, from_environment, get_env_default, getenv,
}

abbrev pub environment : Environment
environment key =
    if str_eq key (text "HTTP_PORT")
    then some (signed_decimal (pos 9090))
    else if str_eq key (text "QUEUE_URL")
    then some (text "q")
    else if str_eq key (text "STAGING_BUCKET")
    then some (text "b")
    else none

abbrev pub open_file : Text → Try Text
open_file path = ok path

-- The file sets the limits.
abbrev pub decode : Text → Config → Try Config
decode file c = ok (record c {
  bomb_defence = config.bomb_defence;
  streaming = config.streaming;
  retry = config.retry;
  sqs = config.sqs;
})

pub loads :
    (c : Config) × (load quote open_file decode floats leb environment ≡ ok c)
    × (c.http.port ≡ pos 9090)
unfolding load parse_env_int load_yaml from_environment get_env_default getenv validate first_wrong
    checks text str_eq to_lower signed_decimal atoi parse_uint
loads = (_, refl, refl)
