-- ===== src/Main/Table/Tests.antt =====
-- The service over a table that keeps the first item at a key.
use zip_extraction.Common.{refl, false, none, [], arith}
use zip_extraction.Common.Int.{pos}
use zip_extraction.Go.Strings.{Text, text}
use zip_extraction.Extraction.Errors.{ok, fail, eof}
use zip_extraction.Extraction.Service.Process.{process}
use zip_extraction.Extraction.Service.Process.Table.{EndsWithTable}
use zip_extraction.Config.Validate.Samples.{config}
use zip_extraction.DynamoDb.{item_of}
use zip_extraction.DynamoDb.Samples.{Table, put_item, put_item-IsTable, empty_table}
use zip_extraction.Main.{Outside, service_ports}
use zip_extraction.Main.Samples.{outside, claim_check}
use zip_extraction.Main.Table.{KeepsItems, process-rows_stored}

abbrev outside_table : Outside Table Text Text
outside_table = record {
  now = λ s. (pos 0, s);
  ctx_err = λ s. none;
  rand = λ s. (0, s);
  wait = λ d s. (false, s);
  create_temp = λ pattern s. (ok pattern, s);
  copy = λ name body s. (none, s);
  remove = λ name s. s;
  temp_file = λ name s. outside.temp_file name [];
  read = outside.read;
  get_object = λ bucket key s. (ok (text "PK", none), s);
  put_object = λ read input s. (none, (input.body, s));
  put_bytes = λ input s. (none, (input.body, s));
  put_item = put_item;
  redelivery_skip = λ s. s;
  format_time = outside.format_time;
  http = record {
    read_all = λ body s. (ok body, s);
    url_error = λ url. none;
    send = λ req s. (ok (record { status_code = 503; body = [] }), s);
    decode = λ body. fail eof;
  };
  encode = outside.encode;
  sort_by_index = outside.sort_by_index;
  sort_by_start = outside.sort_by_start;
  sniff = outside.sniff;
  mime_by_extension = outside.mime_by_extension;
  quote = outside.quote;
  float = outside.float;
}

outside_table-KeepsItems : KeepsItems outside_table (λ s key. s key)
outside_table-KeepsItems = record {
  put_item = put_item-IsTable;
  redelivery_skip = λ s key. refl;
  now = λ s key. refl;
  rand = λ s key. refl;
  wait = λ d s key. refl;
  create_temp = λ pattern s key. refl;
  copy = λ name body s key. refl;
  remove = λ name s key. refl;
  get_object = λ bucket key s at. refl;
  put_object = λ read input s key. refl;
  put_bytes = λ input s key. refl;
  read_all = λ body s key. refl;
  send = λ request s key. refl;
}

process-rows_stored_example :
    EndsWithTable
      (service_ports outside_table config)
      (λ s key. s key)
      (item_of outside_table.format_time)
      claim_check
      empty_table
      (process
        (service_ports outside_table config)
        claim_check
        (record { env = empty_table; events = [] })).1
process-rows_stored_example =
    process-rows_stored outside_table config (λ s key. s key) outside_table-KeepsItems claim_check
      (λ d s e. absurd (ground arith)) empty_table (λ idx. refl)
