-- ===== src/Extraction/Service/Relations.antt =====
-- A relation between the world before a piece of the service and the world after it.
use zip_extraction.Common.{◌≡◌, Option, some, ◌∷◌}
use zip_extraction.Common.Int.{ℤ}
use zip_extraction.Go.Strings.{Text}
use zip_extraction.Go.Io.{Reader}
use zip_extraction.Extraction.Errors.{Try}
use zip_extraction.Extraction.Types.{Classification, PipelineFile}
use zip_extraction.Extraction.Service.Effects.{
  ClassifyRequest, Metric, upload_call, record_call, metric, World, Stream, Ports, M,
}

-- the world in which everything outside is in the state `s`
abbrev pub in_state : {S : Type 0} → World S → S → World S
in_state w s = record w { env = s }

-- The relation has each of the calls that are made for an entry, where the rows have keys that are in
-- `Keys`, and it is a preorder.
pub record IsClosed {S B R : Type 0} (p : Ports S B R) (Keys : Text × Text → Type 0)
    (Rel : World S → World S → Type 0) : Type 0 where
  pub same : (w : World S) → Rel w w
  pub then : (a b c : World S) → Rel a b → Rel b c → Rel a c
  pub counted : (x : Metric) (w : World S) → Rel w (record w { events = metric x ∷ w.events })
  pub now : (w : World S) → Rel w (in_state w (p.now w.env).1)
  pub rand : (w : World S) → Rel w (in_state w (p.rand w.env).1)
  pub wait : (d : ℤ) (w : World S) → Rel w (in_state w (p.wait d w.env).1)
  pub download :
      (bucket key : Text) (w : World S) → Rel w (in_state w (p.download bucket key w.env).1)
  pub upload :
      (bucket key : Text) (read : Reader (Stream R)) (stream : Stream R) (size : ℤ) (mime : Text)
      (w : World S)
      → Rel w (record {
        env = (p.upload bucket key read stream size mime w.env).1;
        events =
            upload_call bucket key size mime (p.upload bucket key read stream size mime w.env).0.0
            ∷ w.events;
      })
  pub record_entry :
      (row : PipelineFile) (w : World S)
      → Keys (row.pk, row.sk)
      → Rel w (record {
        env = (p.record_entry row w.env).1;
        events = record_call row (p.record_entry row w.env).0 ∷ w.events;
      })
  pub classify :
      (classify : ClassifyRequest B → S → Try (Option Classification) × S)
      → p.classifier ≡ some classify
      → (req : ClassifyRequest B) (w : World S) → Rel w (in_state w (classify req w.env).1)

-- The relation has the calls that are made for a whole archive too, but that of the slipsheet writer.
pub record IsClosedForArchive {S B R : Type 0} (p : Ports S B R) (Keys : Text × Text → Type 0)
    (Rel : World S → World S → Type 0) : Type 0 where
  pub calls : IsClosed p Keys Rel
  pub create_temp :
      (pattern : Text) (w : World S) → Rel w (in_state w (p.create_temp pattern w.env).1)
  pub copy : (name : Text) (body : B) (w : World S) → Rel w (in_state w (p.copy name body w.env).1)
  pub remove : (name : Text) (w : World S) → Rel w (in_state w (p.remove name w.env))

-- the piece `m` moves along the relation
abbrev pub Moves : {S A : Type 0} → (World S → World S → Type 0) → M S A → Type 0
Moves {S} Rel m = (w : World S) → Rel w (m w).1

-- the relation of any two worlds has every call
pub anything_closed :
    {S B R : Type 0} {Keys : Text × Text → Type 0} (p : Ports S B R)
    → IsClosedForArchive p Keys (λ before after. Unit {0})
anything_closed p = record {
  calls = record {
    same = λ w. tt;
    then = λ a b c h k. tt;
    counted = λ x w. tt;
    now = λ w. tt;
    rand = λ w. tt;
    wait = λ d w. tt;
    download = λ bucket key w. tt;
    upload = λ bucket key read stream size mime w. tt;
    record_entry = λ row w writes. tt;
    classify = λ classify is req w. tt;
  };
  create_temp = λ pattern w. tt;
  copy = λ name body w. tt;
  remove = λ name w. tt;
}
