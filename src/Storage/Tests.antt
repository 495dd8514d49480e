-- ===== src/Storage/Tests.antt =====
-- The laws at concrete answers.
use zip_extraction.Common.{Option, some, []}
use zip_extraction.Common.Int.{pos}
use zip_extraction.Go.Strings.{Text, text}
use zip_extraction.Extraction.Errors.{Error, BombDefenceError, bomb, wrap}
use zip_extraction.Storage.{PutObjectInput, StorageConfig}

abbrev ratio_exceeded : BombDefenceError
ratio_exceeded = record { rule = 3; reason = text "ratio" }

abbrev uploader : PutObjectInput Text → Text → Option Error × (Text × Text)
uploader input s = (some (wrap (text "upload: ") (bomb ratio_exceeded)), (input.body, s))

abbrev config : StorageConfig
config = record {
  multipart_threshold_bytes = pos 8388608;
  sse_mode = text "SSE-S3";
  sse_kms_key_id = [];
}

abbrev quote : Text → Text
quote s = s
