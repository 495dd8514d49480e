-- ===== src/Main.antt =====
-- services/zip-extraction/cmd/zip-extraction/main.go: the wiring of the service, and the order of its
-- start. Where a panic comes from, and log lines, are left out.
pub mod Laws
pub mod BombUpload
pub mod Document
pub mod Calls
pub mod Table
pub mod HeapDump
mod Samples
mod Tests
use zip_extraction.Common.{
  ℕ, Bool, Option, none, some, List, [], ◌∷◌, ◌++◌, if◌then◌else◌, is_empty,
}
use zip_extraction.Common.Int.{ℤ, pos_part}
use zip_extraction.Go.Strings.{Text, text}
use zip_extraction.Go.Io.{Reader}
use zip_extraction.Go.Float.{Float64, FloatOps}
use zip_extraction.Extraction.Errors.{Error, wrap, Try, ok, fail}
use zip_extraction.Extraction.Types.{EntryDataRange, Time}
use zip_extraction.Extraction.ZipOpen.{TempFile}
use zip_extraction.Extraction.Service.Effects.{ExtractionConfig, SlipsheetCall, Stream, Ports}
use zip_extraction.Config.{Config}
use zip_extraction.Config.Load.{Environment, load}
use zip_extraction.Storage.{StorageConfig, PutObjectInput, upload, download}
use zip_extraction.DynamoDb
use zip_extraction.DynamoDb.{Item}
use zip_extraction.Slipsheet
use zip_extraction.Slipsheet.{ChildEntry, Upload, new_writer}
use zip_extraction.Classification.{HttpPorts, classifier_port}
use zip_extraction.AwsClients
use zip_extraction.AwsClients.{LoadOptions, ClientSet}
use zip_extraction.Log
use zip_extraction.Log.{LogConfig, ZapConfig}
use zip_extraction.App
use zip_extraction.App.{Action, Wake}

-- Everything outside the service, over a state `S`: the clock, contexts, files, the SDK's calls, the
-- HTTP client, and the parts of Go's library that are parameters. `put_object` is the uploader of S3 on
-- a body that is a stream, and `put_bytes` on one in memory.
pub record Outside (S B R : Type 0) : Type 0 where
  pub now : S → Time × S
  pub ctx_err : S → Option Error
  pub rand : S → Float64 × S
  pub wait : ℤ → S → Bool × S
  pub create_temp : Text → S → Try Text × S
  pub copy : Text → B → S → Option Error × S
  pub remove : Text → S → S
  pub temp_file : Text → S → TempFile R
  pub read : Reader R
  pub get_object : Text → Text → S → Try (B × Option ℤ) × S
  pub put_object : Reader (Stream R) → PutObjectInput (Stream R) → S → Option Error × (Stream R × S)
  pub put_bytes : PutObjectInput Text → S → Option Error × (Text × S)
  pub put_item : Item → S → Option Error × S
  pub redelivery_skip : S → S
  pub format_time : Time → Text
  pub http : HttpPorts S B
  pub encode : Slipsheet.Slipsheet → Try Text
  pub sort_by_index : List ChildEntry → List ChildEntry
  pub sort_by_start : List EntryDataRange → List EntryDataRange
  pub sniff : Text → Text
  pub mime_by_extension : Text → Text
  pub quote : Text → Text
  pub float : FloatOps

module _ {S B R : Type 0} (o : Outside S B R) (cfg : Config) where
  unfoldable pub storage_config : StorageConfig
  storage_config = record {
    multipart_threshold_bytes = cfg.streaming.multipart_threshold_bytes;
    sse_mode = cfg.sse.mode;
    sse_kms_key_id = cfg.sse.kms_key_id;
  }

  unfoldable pub extraction_config : ExtractionConfig
  extraction_config = record {
    max_extraction_duration_sec = cfg.bomb_defence.max_extraction_duration_sec;
    staging_bucket = cfg.infra.staging_bucket;
    sse_mode = cfg.sse.mode;
    sse_kms_key_id = cfg.sse.kms_key_id;
    classification_fallback_workspace = cfg.classification.default_workspace;
  }

  -- storageAdapter.Upload of an entry
  unfoldable pub upload_entry :
      Text → Text → Reader (Stream R) → Stream R → ℤ → Text → S → (Option Error × Stream R) × S
  unfolding storage_config
  upload_entry bucket key read stream size mime s =
      let (err, (stream', s')) =
        upload o.quote (o.put_object read) storage_config bucket key stream size mime s in
      ((err, stream'), s')

  -- storageAdapter.Upload of a slipsheet
  unfoldable pub upload_bytes : Upload S
  unfolding storage_config
  upload_bytes bucket key body size mime s =
      let (err, (rest, s')) =
        upload o.quote o.put_bytes storage_config bucket key body size mime s in
      (err, s')

  -- slipsheetWriter.Write
  unfoldable pub write_slipsheet : SlipsheetCall → S → Option Error × S
  unfolding upload_bytes
  write_slipsheet call s =
      Slipsheet.write upload_bytes (new_writer cfg.infra.staging_bucket (text "slipsheets/"))
        o.encode o.sort_by_index o.now call.exec_id call.source_archive call.status call.entries
        call.reason call.detail s

  -- extraction.New over the adapters
  unfoldable pub service_ports : Ports S B R
  unfolding upload_entry write_slipsheet extraction_config
  service_ports = record {
    now = o.now;
    ctx_err = o.ctx_err;
    rand = o.rand;
    wait = o.wait;
    download = download o.quote o.get_object;
    create_temp = o.create_temp;
    copy = o.copy;
    remove = o.remove;
    temp_file = o.temp_file;
    read = o.read;
    upload = upload_entry;
    record_entry =
        DynamoDb.record_entry o.format_time o.quote o.put_item o.redelivery_skip
          cfg.infra.dynamo_table;
    write_slipsheet = write_slipsheet;
    classifier = classifier_port o.http cfg.classification.url cfg.classification.timeout_sec;
    sniff = o.sniff;
    mime_by_extension = o.mime_by_extension;
    quote = o.quote;
    float = o.float;
    sort_by_start = o.sort_by_start;
    bomb_config = cfg.bomb_defence;
    retry_config = cfg.retry;
    config = extraction_config;
  }

  -- the capacity of the channel of slots
  unfoldable pub slot_capacity : ℕ
  slot_capacity = pos_part cfg.sqs.max_in_flight

-- buildStartupProbe, for the error of GetQueueAttributes
unfoldable pub startup_probe : Option Error → Option Error
startup_probe none = none
startup_probe (some e) = some (wrap (text "sqs reachability: ") e)

-- run: the configuration, the logger and the clients, and then the application. `loaded` is what
-- config.Load returns, `queue_attributes` the error of the probe's call.
module _ {L Z A : Type 0} (quote : Text → Text) (parse_level : Text → Try L)
    (build_zap : ZapConfig L → Try Z) (default_config : LoadOptions → Try A) (version : Text) where
  log_config : Config → LogConfig
  log_config cfg = record { format = cfg.logging.format; level = cfg.logging.level }

  with_clients : Try (ClientSet A) → Option Error → Wake → Bool → List Action × Option Error
  with_clients (fail e) queue_attributes wake in_time = ([], some e)
  with_clients (ok set) queue_attributes wake in_time =
      App.run (some (startup_probe queue_attributes)) wake in_time

  with_logger : Config → Try Z → Option Error → Wake → Bool → List Action × Option Error
  unfolding with_clients
  with_logger cfg (fail e) queue_attributes wake in_time = ([], some e)
  with_logger cfg (ok z) queue_attributes wake in_time =
      with_clients (AwsClients.build default_config cfg.infra) queue_attributes wake in_time

  unfoldable pub run : Try Config → Option Error → Wake → Bool → List Action × Option Error
  unfolding with_logger log_config
  run (fail e) queue_attributes wake in_time = ([], some e)
  run (ok cfg) queue_attributes wake in_time =
      with_logger cfg (Log.new quote parse_level build_zap (log_config cfg) version)
        queue_attributes wake in_time

-- how run ends: with its result, or with a panic
pub data RunEnd : Type 0 where
  returned : Option Error → RunEnd
  panicked : RunEnd

-- main: the exit code
unfoldable pub exit_code : RunEnd → ℕ
exit_code (returned none) = 0
exit_code (returned (some e)) = 1
exit_code panicked = 2
