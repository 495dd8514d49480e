-- ===== src/Sqs/Worker.antt =====
-- dispatch, deleteMessage and startHeartbeat of adapter.go: one worker and the goroutine of its
-- heartbeat, as steps that interleave. The handler is one step, since the heartbeat shares nothing
-- with it. Ticks come at any time. Log lines are left out.
pub mod Order
pub mod Disposition
pub mod Finish
pub mod Progress
use zip_extraction.Common.{
  Bool, true, false, ◌||◌, Option, none, some, List, [], ◌∷◌, ◌≡◌, if◌then◌else◌,
}
use zip_extraction.Common.Int.{ℤ}
use zip_extraction.Go.Strings.{Text}
use zip_extraction.Config.{SqsConfig}
use zip_extraction.Extraction.Errors.{Error, Try, ok, fail}
use zip_extraction.Extraction.Types.{ClaimCheck}
use zip_extraction.Sqs.{SqsMessage, parse_message, heartbeat_visibility, is_benign_heartbeat_err}

-- What a MessageHandler gives, where it does not panic.
pub data Reply : Type 0 where
  answered : (delete_msg : Bool) → Option Error → Reply
  panicked : Reply

-- the calls of the SQS API on the message, with their errors
pub data Call : Type 0 where
  change_visibility : ℤ → Option Error → Call
  delete_message : Option Error → Call

pub data Heartbeat : Type 0 where
  beating stopped : Heartbeat

-- where the worker stands
pub data Pc : Type 0 where
  started : Pc  -- before startHeartbeat
  parsing : Pc
  rejecting : Pc  -- the schema is invalid
  rejected : Pc  -- after deleteMessage, before workerCancel
  awaiting_rejected : Pc  -- <-heartbeatStopped
  handling : ClaimCheck → Pc
  handled : (delete_msg : Bool) → Pc  -- before workerCancel
  awaiting : (delete_msg : Bool) → Pc  -- <-heartbeatStopped
  deleting : Pc
  unwinding : Pc  -- after a panic of the handler
  finished : Pc

-- `W` is what the handler works on. The calls are noted latest first.
pub record Worker (W : Type 0) : Type 0 where
  pub pc : Pc
  pub heartbeat : Heartbeat
  pub worker_done : Bool  -- workerCtx has been cancelled by the worker
  pub root_done : Bool  -- rootCtx has been cancelled
  pub calls : List Call
  pub world : W

abbrev pub ctx_done : {W : Type 0} → Worker W → Bool
ctx_done s = s.worker_done || s.root_done

unfoldable pub new_worker : {W : Type 0} → Bool → W → Worker W
new_worker root_done world = record {
  pc = started;
  heartbeat = stopped;
  worker_done = false;
  root_done = root_done;
  calls = [];
  world = world;
}

-- startHeartbeat: with no receipt handle there is no goroutine
unfoldable pub start_heartbeat : Option Text → Heartbeat
start_heartbeat none = stopped
start_heartbeat (some handle) = beating

unfoldable pub after_parse : Try ClaimCheck → Pc
after_parse (fail e) = rejecting
after_parse (ok msg) = handling msg

unfoldable pub after_handler : Reply → Pc
after_handler (answered delete_msg err) = handled delete_msg
after_handler panicked = unwinding

-- what the goroutine does after ChangeMessageVisibility
unfoldable pub after_beat : Option Error → Heartbeat
after_beat none = beating
after_beat (some e) = if is_benign_heartbeat_err e then stopped else beating

-- deleteMessage: with no receipt handle it does nothing
unfoldable pub note_delete : Option Text → Option Error → List Call → List Call
note_delete none err calls = calls
note_delete (some handle) err calls = delete_message err ∷ calls

-- `Answers done err`: the SQS API may answer `err` in a context that is done, or is not.
module _ {W : Type 0} (cfg : SqsConfig) (decode : Text → Try ClaimCheck)
    (handler : ClaimCheck → W → Reply × W) (Answers : Bool → Option Error → Type 0)
    (m : SqsMessage) where
  pub data Step (s : Worker W) : Worker W → Type 0 where
    shut_down : Step s (record s { root_done = true })
    start :
        s.pc ≡ started
        → Step s (record s { pc = parsing; heartbeat = start_heartbeat m.receipt_handle })
    parse : s.pc ≡ parsing → Step s (record s { pc = after_parse (parse_message decode m.body) })
    reject :
        (err : Option Error)
        → s.pc ≡ rejecting
        → Answers s.root_done err
        → Step s (record s { pc = rejected; calls = note_delete m.receipt_handle err s.calls })
    cancel_rejected :
        s.pc ≡ rejected → Step s (record s { pc = awaiting_rejected; worker_done = true })
    leave_rejected :
        s.pc ≡ awaiting_rejected → s.heartbeat ≡ stopped → Step s (record s { pc = finished })
    handle :
        (msg : ClaimCheck)
        → s.pc ≡ handling msg
        → Step s (record s {
          pc = after_handler (handler msg s.world).0;
          world = (handler msg s.world).1;
        })
    cancel :
        (delete_msg : Bool)
        → s.pc ≡ handled delete_msg
        → Step s (record s { pc = awaiting delete_msg; worker_done = true })
    heartbeat_gone :
        (delete_msg : Bool)
        → s.pc ≡ awaiting delete_msg
        → s.heartbeat ≡ stopped
        → Step s (record s { pc = if delete_msg then deleting else finished })
    delete :
        (err : Option Error)
        → s.pc ≡ deleting
        → Answers s.root_done err
        → Step s (record s { pc = finished; calls = note_delete m.receipt_handle err s.calls })
    recover : s.pc ≡ unwinding → Step s (record s { pc = finished; worker_done = true })
    beat :
        (err : Option Error)
        → s.heartbeat ≡ beating
        → Answers (ctx_done s) err
        → Step s (record s {
          heartbeat = after_beat err;
          calls = change_visibility (heartbeat_visibility cfg) err ∷ s.calls;
        })
    quit : s.heartbeat ≡ beating → ctx_done s ≡ true → Step s (record s { heartbeat = stopped })

  pub data Steps (s : Worker W) : Worker W → Type 0 where
    here : Steps s s
    next : {t u : Worker W} → Steps s t → Step t u → Steps s u
