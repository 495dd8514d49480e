-- ===== src/Main/Samples.antt =====
-- An outside of which every call succeeds, and a claim check, for the tests of the wiring.
use zip_extraction.Common.{false, none, some, List, [], ◌∷◌, take, drop}
use zip_extraction.Common.Int.{pos}
use zip_extraction.Go.Strings.{Text, text}
use zip_extraction.Extraction.Errors.{ok, fail, eof}
use zip_extraction.Extraction.Types.{ClaimCheck}
use zip_extraction.Extraction.Service.Samples.{file}
use zip_extraction.Config.Validate.Samples.{quote, floats}
use zip_extraction.Extraction.Service.Effects.{Stream}
use zip_extraction.Storage.{PutObjectInput}
use zip_extraction.Main.{Outside}

-- `put_entry` and `put_memory` are what a put of a stream and of a body in memory do to the state.
abbrev pub outside_of :
    {S : Type 0}
    → (PutObjectInput (Stream Text) → S → S)
    → (PutObjectInput Text → S → S)
    → Outside S Text Text
outside_of put_entry put_memory = record {
  now = λ s. (pos 0, s);
  ctx_err = λ s. none;
  rand = λ s. (0, s);
  wait = λ d s. (false, s);
  create_temp = λ pattern s. (ok pattern, s);
  copy = λ name body s. (none, s);
  remove = λ name s. s;
  temp_file =
      λ name s. record { stat = ok (pos 2); open_err = none; parse = λ size. ok (file ∷ []) };
  read = λ r n. (
    record { bytes = take n r; err = elim (drop n r) [ [] ↦ some eof | c ∷ s ↦ none ] },
    drop n r,
  );
  get_object = λ bucket key s. (ok (text "PK", some (pos 2)), s);
  put_object = λ read input s. (none, (input.body, put_entry input s));
  put_bytes = λ input s. (none, (input.body, put_memory input s));
  put_item = λ item s. (none, s);
  redelivery_skip = λ s. s;
  format_time = λ t. [];
  http = record {
    read_all = λ body s. (ok body, s);
    url_error = λ url. none;
    send = λ req s. (ok (record { status_code = 503; body = [] }), s);
    decode = λ body. fail eof;
  };
  encode = λ doc. ok (text "{}");
  sort_by_index = λ children. children;
  sort_by_start = λ ranges. ranges;
  sniff = λ peek. text "text/plain";
  mime_by_extension = λ e. [];
  quote = quote;
  float = floats;
}

-- The state holds the keys of the objects that are put.
abbrev pub outside : Outside (List Text) Text Text
outside = outside_of (λ input s. input.key ∷ s) (λ input s. input.key ∷ s)

abbrev pub claim_check : ClaimCheck
claim_check = record {
  pipeline_execution_id = text "e1";
  tenant_id = text "t1";
  document_id = text "d1";
  source_bucket = text "b";
  source_key = text "k.zip";
  correlation_id = text "c1";
}
