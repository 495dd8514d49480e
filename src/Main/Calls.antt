-- ===== src/Main/Calls.antt =====
-- What the ports of main.go do outside is made of the calls outside.
use zip_extraction.Common.Int.{ℤ}
use zip_extraction.Go.Strings.{Text}
use zip_extraction.Go.Io.{Reader}
use zip_extraction.Extraction.Types.{PipelineFile}
use zip_extraction.Extraction.Service.Effects.{Stream}
use zip_extraction.Extraction.Service.Relations.{IsClosedForArchive}
use zip_extraction.Config.{Config}
use zip_extraction.Storage.{PutObjectInput}
use zip_extraction.Storage.Calls.{upload-state, download-state}
use zip_extraction.DynamoDb
use zip_extraction.Classification.{HttpRequest}
use zip_extraction.Classification.Calls.{classifier_port-Related}
use zip_extraction.Main.{Outside, storage_config, upload_entry, service_ports}

-- A preorder on the states that has each of the calls outside but those of DynamoDB and the upload of
-- a body in memory.
pub record HasCalls {S B R : Type 0} (o : Outside S B R) (Rel : S → S → Type 0) : Type 0 where
  pub same : (s : S) → Rel s s
  pub then : (a b c : S) → Rel a b → Rel b c → Rel a c
  pub now : (s : S) → Rel s (o.now s).1
  pub rand : (s : S) → Rel s (o.rand s).1
  pub wait : (d : ℤ) (s : S) → Rel s (o.wait d s).1
  pub create_temp : (pattern : Text) (s : S) → Rel s (o.create_temp pattern s).1
  pub copy : (name : Text) (body : B) (s : S) → Rel s (o.copy name body s).1
  pub remove : (name : Text) (s : S) → Rel s (o.remove name s)
  pub get_object : (bucket key : Text) (s : S) → Rel s (o.get_object bucket key s).1
  pub put_object :
      (read : Reader (Stream R)) (input : PutObjectInput (Stream R)) (s : S)
      → Rel s (o.put_object read input s).1.1
  pub read_all : (body : B) (s : S) → Rel s (o.http.read_all body s).1
  pub send : (request : HttpRequest) (s : S) → Rel s (o.http.send request s).1

module _ {S B R : Type 0} (o : Outside S B R) (cfg : Config) (Rel : S → S → Type 0)
    (has : HasCalls o Rel) where
  upload_entry-Related :
      (bucket key : Text) (read : Reader (Stream R)) (stream : Stream R) (size : ℤ) (mime : Text)
      (s : S)
      → Rel s (upload_entry o cfg bucket key read stream size mime s).1
  unfolding upload_entry
  upload_entry-Related bucket key read stream size mime s =
      rw
        (upload-state o.quote (o.put_object read) (storage_config o cfg) bucket key stream size mime
          s)
        (has.put_object read _ s)

  -- It has the calls of the ports, where it has the writing of the rows.
  pub service_ports-IsClosed :
      (Keys : Text × Text → Type 0)
      → ((row : PipelineFile) (s : S)
          → Keys (row.pk, row.sk)
          → Rel s
              (DynamoDb.record_entry o.format_time o.quote o.put_item o.redelivery_skip
                cfg.infra.dynamo_table row s).1)
      → IsClosedForArchive (service_ports o cfg) Keys (λ before after. Rel before.env after.env)
  unfolding service_ports
  service_ports-IsClosed Keys records = record {
    calls = record {
      same = λ w. has.same w.env;
      then = λ a b c d e. has.then a.env b.env c.env d e;
      counted = λ x w. has.same w.env;
      now = λ w. has.now w.env;
      rand = λ w. has.rand w.env;
      wait = λ d w. has.wait d w.env;
      download = λ bucket name w.
          rw (download-state o.quote o.get_object bucket name w.env)
            (has.get_object bucket name w.env);
      upload = λ bucket name read stream size mime w.
          upload_entry-Related bucket name read stream size mime w.env;
      record_entry = λ row w writes. records row w.env writes;
      classify = λ classify is req w.
          classifier_port-Related o.http Rel has.same has.then has.read_all has.send
            cfg.classification.url cfg.classification.timeout_sec classify is req w.env;
    };
    create_temp = λ pattern w. has.create_temp pattern w.env;
    copy = λ name body w. has.copy name body w.env;
    remove = λ name w. has.remove name w.env;
  }
