-- ===== src/Config/Validate/Tests.antt =====
-- The laws at a concrete configuration.
use zip_extraction.Common.{◌≡◌, refl, leb, none}
use zip_extraction.Go.Strings.{text, str_eq, to_lower}
use zip_extraction.Config.Validate.{validate, first_wrong, checks}
use zip_extraction.Config.Validate.Samples.{quote, floats, config}

passes : validate quote floats leb config ≡ none
unfolding validate first_wrong checks text str_eq to_lower
passes = refl
