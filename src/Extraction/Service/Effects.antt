-- ===== src/Extraction/Service/Effects.antt =====
-- services/zip-extraction/internal/extraction/ports.go: what the service calls, over a state `S` of
-- everything outside it; the body of a download has the type `B`, the reader of an entry `R`. The
-- calls are noted in the order they are made, the latest first. Contexts are part of `S`; log lines
-- and `Close` are left out.
use zip_extraction.Common.{ℕ, Bool, Option, List, ◌∷◌}
use zip_extraction.Common.Int.{ℤ}
use zip_extraction.Go.Strings.{Text}
use zip_extraction.Go.Float.{Float64, FloatOps}
use zip_extraction.Go.Io.{Reader}
use zip_extraction.Config.{BombDefenceConfig, RetryConfig}
use zip_extraction.Extraction.Errors.{Error, Try}
use zip_extraction.Extraction.Types.{
  Status, EntryDataRange, Classification, Time, EntryOutcome, PipelineFile,
}
use zip_extraction.Extraction.ZipOpen.{TempFile, Rebuilt}
use zip_extraction.BombDefence.LimitedReader.{LimitedReader}
use zip_extraction.Retry.{Env}

pub record ClassifyRequest (B : Type 0) : Type 0 where
  pub workspace_id : Text
  pub filename : Text
  pub content_type : Text
  pub parent_archive_depth : ℕ
  pub body : B

-- the methods of Metrics
pub data Metric : Type 0 where
  entry_processed : Text → Metric
  extraction_duration : ℤ → Text → Metric
  extraction_failure : Text → Metric
  bomb_rejection : ℕ → Metric
  bytes_extracted : ℤ → Metric
  partial_failure redelivery_skip slipsheet_write_failure : Metric
  classification_success : Text → Metric
  classification_failure : Text → Metric

pub record ExtractionConfig : Type 0 where
  pub max_extraction_duration_sec : ℤ
  pub staging_bucket : Text
  pub sse_mode : Text
  pub sse_kms_key_id : Text
  pub classification_fallback_workspace : Text

-- the arguments of SlipsheetWriter.Write
pub record SlipsheetCall : Type 0 where
  pub exec_id : Text
  pub source_archive : Text
  pub status : Status
  pub entries : List EntryOutcome
  pub reason : Text
  pub detail : Text

-- A call, with its error.
pub data Event : Type 0 where
  upload_call : Text → Text → ℤ → Text → Option Error → Event
  record_call : PipelineFile → Option Error → Event
  slipsheet_call : SlipsheetCall → Option Error → Event
  metric : Metric → Event

pub record World (S : Type 0) : Type 0 where
  pub env : S
  pub events : List Event

-- the stream that an upload reads
abbrev pub Stream : Type 0 → Type 0
Stream R = Rebuilt (LimitedReader R)

-- Dependencies: the ports that are interfaces to the outside, and the configuration of the checker
-- and the retrier that cmd/zip-extraction/main.go passes. `sniff` and `mime_by_extension` are
-- http.DetectContentType and mime.TypeByExtension, `quote` the verb %q, `sort_by_start` sort.Slice.
pub record Ports (S B R : Type 0) : Type 0 where
  pub now : S → Time × S
  pub ctx_err : S → Option Error
  pub rand : S → Float64 × S
  pub wait : ℤ → S → Bool × S
  pub download : Text → Text → S → Try (B × ℤ) × S
  pub create_temp : Text → S → Try Text × S
  pub copy : Text → B → S → Option Error × S
  pub remove : Text → S → S
  pub temp_file : Text → S → TempFile R
  pub read : Reader R
  pub upload :
      Text → Text → Reader (Stream R) → Stream R → ℤ → Text → S → (Option Error × Stream R) × S
  pub record_entry : PipelineFile → S → Option Error × S
  pub write_slipsheet : SlipsheetCall → S → Option Error × S
  pub classifier : Option (ClassifyRequest B → S → Try (Option Classification) × S)
  pub sniff : Text → Text
  pub mime_by_extension : Text → Text
  pub quote : Text → Text
  pub float : FloatOps
  pub sort_by_start : List EntryDataRange → List EntryDataRange
  pub bomb_config : BombDefenceConfig
  pub retry_config : RetryConfig
  pub config : ExtractionConfig

abbrev pub M : Type 0 → Type 0 → Type 0
M S A = World S → A × World S

infixl 5 ◌>>=◌ ◌>>◌
abbrev pub ◌>>=◌ : {S A B : Type 0} → M S A → (A → M S B) → M S B
(m >>= f) w = let (a, w') = m w in f a w'

abbrev pub ◌>>◌ : {S A B : Type 0} → M S A → M S B → M S B
m >> k = m >>= λ _. k

abbrev pub pure : {S A : Type 0} → A → M S A
pure a w = (a, w)

-- a call that is not noted
abbrev pub lift : {S A : Type 0} → (S → A × S) → M S A
lift f w = let (a, s) = f w.env in (a, record w { env = s })

abbrev pub emit : {S : Type 0} → Event → M S (Unit {0})
emit e w = (tt, record w { events = e ∷ w.events })

-- the retrier's environment, beside a state `T` of the operation
abbrev pub retry_env : {S B R : Type 0} (T : Type 0) → Ports S B R → Env (World S × T)
retry_env T p = record {
  ctx_err = λ s. p.ctx_err s.0.env;
  rand = λ s. let (x, env) = p.rand s.0.env in (x, (record s.0 { env = env }, s.1));
  wait = λ d s. let (x, env) = p.wait d s.0.env in (x, (record s.0 { env = env }, s.1));
}
