-- ===== src/Config/Load/Tests.antt =====
-- A configuration that is loaded, and a port that is read.
use zip_extraction.Common.{some, leb}
use zip_extraction.Common.Int.{pos}
use zip_extraction.Go.Fmt.{signed_decimal}
use zip_extraction.Config.Validate.Laws.{IsValid}
use zip_extraction.Config.Validate.Samples.{quote, floats}
use zip_extraction.Config.Load.{Environment}
use zip_extraction.Config.Load.Laws.{Loaded, load-IsValid}
use zip_extraction.Config.Load.Samples.{environment, open_file, decode, loads}

load-IsValid_example :
    IsValid loads.0 × Loaded quote open_file decode floats leb environment loads.0
load-IsValid_example = load-IsValid quote open_file decode floats leb environment loads.0 loads.1

abbrev only_port : Environment
only_port key = some (signed_decimal (pos 9090))
