-- ===== src/App.antt =====
-- services/zip-extraction/internal/app/app.go: the start of the subsystems, the readiness gate and the
-- drain. What the goroutines do enters as the event that wakes Run, and as the end of its wait for
-- the queue; log lines are left out.
pub mod Messages
pub mod Readiness
mod Tests
use zip_extraction.Common.{Bool, true, false, Option, none, some, List, [], ◌∷◌, ◌++◌}
use zip_extraction.Go.Strings.{text}
use zip_extraction.Extraction.Errors.{Error, wrap}
use zip_extraction.Extraction.Types.{ClaimCheck}
use zip_extraction.Extraction.Service.Effects.{World, Ports}
use zip_extraction.Extraction.Service.Process.{process}
use zip_extraction.Sqs.Worker.{Reply, answered}

-- What Run does, in the order it does it.
pub data Action : Type 0 where
  start_http : Action
  probe : Option Error → Action
  set_gate : Bool → Action  -- HealthGate.SetReady
  start_queue : Action
  await_queue : (in_time : Bool) → Action
  shut_http_down : Action

-- the case of the select that Run takes
pub data Wake : Type 0 where
  context_done : Wake
  http_ended : Option Error → Wake
  queue_ended : Option Error → Wake

-- steps 5 and what follows
unfoldable pub drain : Bool → List Action × Option Error
drain in_time = (set_gate false ∷ await_queue in_time ∷ shut_http_down ∷ [], none)

unfoldable pub after_wake : Wake → Bool → List Action × Option Error
unfolding drain
after_wake context_done in_time = drain in_time
after_wake (http_ended none) in_time = drain in_time
after_wake (http_ended (some e)) in_time = ([], some e)
after_wake (queue_ended none) in_time = drain in_time
after_wake (queue_ended (some e)) in_time = ([], some e)

-- Run after the startup probe has passed
unfoldable pub serve_until : Wake → Bool → List Action × Option Error
unfolding after_wake
serve_until wake in_time =
    let (actions, err) = after_wake wake in_time in (set_gate true ∷ start_queue ∷ actions, err)

after_probe : Option Error → Wake → Bool → List Action × Option Error
after_probe none wake in_time = serve_until wake in_time
after_probe (some e) wake in_time = (set_gate false ∷ [], some (wrap (text "startup: ") e))

-- the startup probe, which is optional
unfoldable pub start_up : Option (Option Error) → Wake → Bool → List Action × Option Error
unfolding after_probe serve_until
start_up none wake in_time = serve_until wake in_time
start_up (some err) wake in_time =
    let (actions, err') = after_probe err wake in_time in (probe err ∷ actions, err')

-- Run: `startup` is the result of the probe, if there is one.
unfoldable pub run : Option (Option Error) → Wake → Bool → List Action × Option Error
unfolding start_up
run startup wake in_time =
    let (actions, err) = start_up startup wake in_time in (start_http ∷ actions, err)

-- what the handler answers, for the error of Process
unfoldable pub reply_of : Option Error → Reply
reply_of none = answered true none
reply_of (some e) = answered false (some e)

-- The handler that Run gives to the queue. The error of Process is nil on each of its returns.
unfoldable pub handle_message :
    {S B R : Type 0} → Ports S B R → ClaimCheck → World S → Reply × World S
unfolding reply_of
handle_message p msg w = let (outcome, w') = process p msg w in (reply_of none, w')
