-- ===== src/Main/Table.antt =====
-- The table of rows under the whole service: the adapters, the retrier and the loop over the entries.
mod Tests
use zip_extraction.Common.{ℕ, ◌≡◌, ◌≢◌, ◌⊎◌, refl, ap, ◌∙◌, true, Option, none, some, []}
use zip_extraction.Common.Int.{ℤ}
use zip_extraction.Go.Strings.{Text}
use zip_extraction.Go.Io.{Reader}
use zip_extraction.Extraction.Errors.{Error, is_some}
use zip_extraction.Extraction.Types.{ClaimCheck, PipelineFile}
use zip_extraction.Extraction.Service.Effects.{SlipsheetCall, World, Stream}
use zip_extraction.Extraction.Service.RowTable.{SameItems, IsRowTable}
use zip_extraction.Extraction.Service.Relations.{IsClosedForArchive}
use zip_extraction.Extraction.Service.Process.{process}
use zip_extraction.Extraction.Service.Process.Table.{EndsWithTable, process-IsTableOf}
use zip_extraction.Extraction.Service.Entry.Calls.{keys_at}
use zip_extraction.Config.{Config}
use zip_extraction.Storage.{PutObjectInput}
use zip_extraction.Storage.Calls.{upload-state, download-state}
use zip_extraction.DynamoDb.{Item, item_of}
use zip_extraction.DynamoDb.Table.{
  IsTable, record_entry-elsewhere, record_entry-Settles, record_entry-stored,
}
use zip_extraction.Slipsheet.Calls.{write-Related}
use zip_extraction.Main.Calls.{service_ports-IsClosed}
use zip_extraction.Classification.{HttpRequest}
use zip_extraction.Classification.Calls.{classifier_port-Related}
use zip_extraction.Main.{
  Outside, storage_config, upload_entry, upload_bytes, write_slipsheet, service_ports,
}

-- each item is as it was
abbrev pub Same : {S : Type 0} → (S → Text × Text → Option Item) → S → S → Type 0
Same stored s t = (key : Text × Text) → stored t key ≡ stored s key

-- What the calls outside do to the items of the table, `stored` being the item at a key: DynamoDB
-- answers as a table, and no other call changes an item.
pub record KeepsItems {S B R : Type 0} (o : Outside S B R) (stored : S → Text × Text → Option Item)
    : Type 0 where
  pub put_item : IsTable stored o.put_item
  pub redelivery_skip : (s : S) → Same stored s (o.redelivery_skip s)
  pub now : (s : S) → Same stored s (o.now s).1
  pub rand : (s : S) → Same stored s (o.rand s).1
  pub wait : (d : ℤ) (s : S) → Same stored s (o.wait d s).1
  pub create_temp : (pattern : Text) (s : S) → Same stored s (o.create_temp pattern s).1
  pub copy : (name : Text) (body : B) (s : S) → Same stored s (o.copy name body s).1
  pub remove : (name : Text) (s : S) → Same stored s (o.remove name s)
  pub get_object : (bucket key : Text) (s : S) → Same stored s (o.get_object bucket key s).1
  pub put_object :
      (read : Reader (Stream R)) (input : PutObjectInput (Stream R)) (s : S)
      → Same stored s (o.put_object read input s).1.1
  pub put_bytes : (input : PutObjectInput Text) (s : S) → Same stored s (o.put_bytes input s).1.1
  pub read_all : (body : B) (s : S) → Same stored s (o.http.read_all body s).1
  pub send : (request : HttpRequest) (s : S) → Same stored s (o.http.send request s).1

module _ {S B R : Type 0} (o : Outside S B R) (cfg : Config)
    (stored : S → Text × Text → Option Item) (keeps : KeepsItems o stored) where
  upload_bytes-Same :
      (bucket key body : Text) (size : ℤ) (mime : Text) (s : S)
      → Same stored s (upload_bytes o cfg bucket key body size mime s).1
  unfolding upload_bytes
  upload_bytes-Same bucket key body size mime s =
      rw (upload-state o.quote o.put_bytes (storage_config o cfg) bucket key body size mime s)
        (keeps.put_bytes _ s)

  write_slipsheet-Same :
      (call : SlipsheetCall) (s : S) → Same stored s (write_slipsheet o cfg call s).1
  unfolding write_slipsheet
  write_slipsheet-Same call =
      write-Related (Same stored) (λ s key. refl) (λ a b c d e key. e key ∙ d key)
        (upload_bytes o cfg) _ upload_bytes-Same o.encode o.sort_by_index o.now keeps.now _ _ _ _ _
        _

  others_keep : IsClosedForArchive (service_ports o cfg) (λ keys. ⊥) (SameItems stored)
  others_keep =
      service_ports-IsClosed o cfg (Same stored)
        (record {
          same = λ s key. refl;
          then = λ a b c d e key. e key ∙ d key;
          now = keeps.now;
          rand = keeps.rand;
          wait = keeps.wait;
          create_temp = keeps.create_temp;
          copy = keeps.copy;
          remove = keeps.remove;
          get_object = keeps.get_object;
          put_object = keeps.put_object;
          read_all = keeps.read_all;
          send = keeps.send;
        })
        (λ keys. ⊥) (λ row s never. absurd never)

  service_ports-IsRowTable : IsRowTable (service_ports o cfg) stored (item_of o.format_time)
  unfolding service_ports
  service_ports-IsRowTable = record {
    others = others_keep;
    writes_slipsheet = λ call w. write_slipsheet-Same call w.env;
    elsewhere =
        record_entry-elsewhere o.format_time o.quote o.put_item o.redelivery_skip
          cfg.infra.dynamo_table stored keeps.put_item keeps.redelivery_skip;
    settled =
        record_entry-Settles o.format_time o.quote o.put_item o.redelivery_skip
          cfg.infra.dynamo_table stored keeps.put_item keeps.redelivery_skip;
    recorded =
        record_entry-stored o.format_time o.quote o.put_item o.redelivery_skip
          cfg.infra.dynamo_table stored keeps.put_item keeps.redelivery_skip;
  }

  -- Where DynamoDB answers as a table does, and no other call outside changes an item; a context that
  -- ended a wait has an error; no call is noted at first; and the table holds no row of the execution
  -- yet: among the calls of Process is one of the slipsheet writer, and, at the end, for each entry that
  -- it lists as UPLOADED the table holds, at the keys of the entry, the item of its row, which has the
  -- child key, the media type, the size and the time of that entry, and the status UPLOADED; there is no
  -- row for an index beyond the number of the entries listed; and the items at keys that are not of the
  -- execution are those that there were.
  pub process-rows_stored :
      (msg : ClaimCheck)
      → ((d : ℤ) (s : S) → (o.wait d s).0 ≡ true → is_some (o.ctx_err (o.wait d s).1) ≡ true)
      → (s : S) → ((idx : ℕ) → stored s (keys_at msg idx) ≡ none)
      → EndsWithTable
          (service_ports o cfg)
          stored
          (item_of o.format_time)
          msg
          s
          (process (service_ports o cfg) msg (record { env = s; events = [] })).1
  unfolding service_ports
  process-rows_stored msg ends s fresh =
      process-IsTableOf (service_ports o cfg) stored (item_of o.format_time)
        service_ports-IsRowTable msg ends s fresh
