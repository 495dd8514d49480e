-- ===== src/Extraction/Service/Samples.antt =====
-- A small archive, a message and ports of which every call succeeds, for tests.
use zip_extraction.Common.{ℕ, suc, false, none, some, [], ◌∷◌, take, drop}
use zip_extraction.Common.Int.{pos}
use zip_extraction.Go.Strings.{Text, text}
use zip_extraction.Go.Float.{FloatOps}
use zip_extraction.Config.{BombDefenceConfig}
use zip_extraction.Extraction.Errors.{eof, ok}
use zip_extraction.Extraction.Types.{ClaimCheck}
use zip_extraction.Extraction.ZipOpen.{ZipFile}
use zip_extraction.Extraction.Service.Effects.{World, Ports}

abbrev pub sample_config : BombDefenceConfig
sample_config = record {
  max_compressed_size_bytes = pos 1000;
  max_extracted_size_bytes = pos 1000;
  max_compression_ratio = 0;
  max_entry_count = pos 10;
  max_directory_depth = pos 3;
  max_single_file_size_bytes = pos 100;
  max_extraction_duration_sec = pos 240;
  max_total_declared_uncompressed_bytes = pos 5000;
}

abbrev pub floats : FloatOps
floats = record {
  of_int = λ a. 0;
  to_int = pos;
  add = λ a b. a;
  sub = λ a b. a;
  mul = λ a b. a;
  div = λ a b. a;
  pow = λ a b. a;
  lt = λ a b. false;
  print = λ a. [];
  print2 = λ a. [];
}

abbrev pub file : ZipFile Text
file = record {
  name = text "docs/a.txt";
  mode = 420;
  flags = 8;
  method = 8;
  compressed_size64 = 3;
  uncompressed_size64 = 6;
  data_offset = some (pos 40);
  opened = ok (text "abcdef");
}

-- The state is a clock; every call succeeds.
abbrev pub ports : Ports ℕ Text Text
ports = record {
  now = λ s. (pos s, suc s);
  ctx_err = λ s. none;
  rand = λ s. (0, s);
  wait = λ d s. (false, s);
  download = λ bucket key s. (ok (text "PK", pos 2), s);
  create_temp = λ pattern s. (ok pattern, s);
  copy = λ name body s. (none, s);
  remove = λ name s. s;
  temp_file =
      λ name s. record { stat = ok (pos 2); open_err = none; parse = λ size. ok (file ∷ []) };
  read = λ r n. (
    record { bytes = take n r; err = elim (drop n r) [ [] ↦ some eof | c ∷ s ↦ none ] },
    drop n r,
  );
  upload = λ bucket key read stream size mime s. ((none, (read stream 1024).1), s);
  record_entry = λ row s. (none, s);
  write_slipsheet = λ call s. (none, s);
  classifier = none;
  sniff = λ peek. text "text/plain";
  mime_by_extension = λ e. [];
  quote = λ s. s;
  float = floats;
  sort_by_start = λ ranges. ranges;
  bomb_config = sample_config;
  retry_config = record {
    max_attempts = pos 3;
    backoff_base_millis = pos 100;
    backoff_factor = 2;
    jitter_fraction = 0;
  };
  config = record {
    max_extraction_duration_sec = pos 240;
    staging_bucket = text "staging";
    sse_mode = text "SSE-S3";
    sse_kms_key_id = [];
    classification_fallback_workspace = [];
  };
}

abbrev pub message : ClaimCheck
message = record {
  pipeline_execution_id = text "e1";
  tenant_id = text "t1";
  document_id = text "d1";
  source_bucket = text "b";
  source_key = text "k.zip";
  correlation_id = text "c1";
}

abbrev pub world : World ℕ
world = record { env = 0; events = [] }
