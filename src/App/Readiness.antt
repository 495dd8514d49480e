-- ===== src/App/Readiness.antt =====
-- The readiness gate while app.go starts, runs and drains.
use zip_extraction.Common.{
  Bool-cases, Bool, true, false, ◌≡◌, ◌∙◌, ap, refl, inl, inr, Option, none, some, List, [], ◌∷◌,
  if◌then◌else◌,
}
use zip_extraction.Go.Strings.{text, str_eq}
use zip_extraction.Extraction.Errors.{Error, is_some}
use zip_extraction.Health.{Gate, Response, new_gate, serve}
use zip_extraction.App.{
  Action, start_http, probe, set_gate, start_queue, await_queue, shut_http_down, Wake, context_done,
  http_ended, queue_ended, serve_until, run,
}

-- the gate after some actions
abbrev pub gate_after : Gate → List Action → Gate
gate_after g [] = g
gate_after g (set_gate v ∷ actions) = gate_after (record { is_ready = v }) actions
gate_after g (start_http ∷ actions) = gate_after g actions
gate_after g (probe err ∷ actions) = gate_after g actions
gate_after g (start_queue ∷ actions) = gate_after g actions
gate_after g (await_queue in_time ∷ actions) = gate_after g actions
gate_after g (shut_http_down ∷ actions) = gate_after g actions

-- The queue is started while the gate is ready, it is awaited while the gate is not ready, and the
-- HTTP server is shut down at the end, while the gate is not ready.
abbrev pub Orderly : Gate → List Action → Type 0
Orderly g [] = Unit
Orderly g (set_gate v ∷ actions) = Orderly (record { is_ready = v }) actions
Orderly g (start_http ∷ actions) = Orderly g actions
Orderly g (probe err ∷ actions) = Orderly g actions
Orderly g (start_queue ∷ actions) = (g.is_ready ≡ true) × Orderly g actions
Orderly g (await_queue in_time ∷ actions) = (g.is_ready ≡ false) × Orderly g actions
Orderly g (shut_http_down ∷ actions) = (g.is_ready ≡ false) × (actions ≡ [])

-- the startup probe has not failed
abbrev pub passes : Option (Option Error) → Bool
passes none = true
passes (some none) = true
passes (some (some e)) = false

-- The readiness endpoint answers 200 exactly while the gate is ready.
serve-readiness :
    (metrics not_found : Response) (g : Gate)
    → (serve metrics not_found g (text "/healthz/ready")).status_code
      ≡ (if g.is_ready then 200 else 503)
unfolding serve text str_eq
serve-readiness metrics not_found g = elim (Bool-cases g.is_ready) [ inl e ↦ rw e | inr e ↦ rw e ]

-- What a run does whose startup probe has passed, or failed.
abbrev Conforms : Bool → List Action × Option Error → Type 0
Conforms passed (actions, err) =
    Orderly new_gate actions
    × ((gate_after new_gate actions).is_ready ≡ (if passed then is_some err else false))
    × (passed ≡ false → is_some err ≡ true)

serve_until-Conforms : (wake : Wake) (in_time : Bool) → Conforms true (serve_until wake in_time)
unfolding serve_until
serve_until-Conforms context_done in_time = ((refl, (refl, (refl, refl))), refl, λ f. cc)
serve_until-Conforms (http_ended none) in_time = ((refl, (refl, (refl, refl))), refl, λ f. cc)
serve_until-Conforms (http_ended (some e)) in_time = ((refl, tt), refl, λ f. cc)
serve_until-Conforms (queue_ended none) in_time = ((refl, (refl, (refl, refl))), refl, λ f. cc)
serve_until-Conforms (queue_ended (some e)) in_time = ((refl, tt), refl, λ f. cc)

run-Conforms :
    (startup : Option (Option Error)) (wake : Wake) (in_time : Bool)
    → Conforms (passes startup) (run startup wake in_time)
unfolding run
run-Conforms none wake in_time = serve_until-Conforms wake in_time
run-Conforms (some none) wake in_time = serve_until-Conforms wake in_time
run-Conforms (some (some e)) wake in_time = (tt, refl, λ f. refl)

-- In every run: the queue is started only while the gate is ready; it is awaited, and the HTTP server
-- is shut down, only after the gate has been closed; and nothing follows the shutdown of the server.
-- A run whose startup probe fails returns an error with the gate closed. Any other returns with the
-- gate closed exactly if it returns no error, so that after a failure of the server or of the queue
-- the readiness endpoint answers 200.
pub run-Orderly :
    (startup : Option (Option Error)) (wake : Wake) (in_time : Bool) (metrics not_found : Response)
    → let (actions, err) = run startup wake in_time in
      let gate = gate_after new_gate actions in
      Orderly new_gate actions
      × (passes startup ≡ false → (is_some err ≡ true) × (gate.is_ready ≡ false))
      × (passes startup ≡ true → gate.is_ready ≡ is_some err)
      × ((serve metrics not_found gate (text "/healthz/ready")).status_code
          ≡ (if gate.is_ready then 200 else 503))
run-Orderly startup wake in_time metrics not_found =
    let (orderly, closed, failing) = run-Conforms startup wake in_time in
    (
      orderly,
      λ f. (
        failing f,
        closed ∙ ap (λ b. if b then is_some (run startup wake in_time).1 else false) f,
      ),
      λ f. closed ∙ ap (λ b. if b then is_some (run startup wake in_time).1 else false) f,
      serve-readiness metrics not_found (gate_after new_gate (run startup wake in_time).0),
    )
