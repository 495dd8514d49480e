-- ===== src/Health.antt =====
-- services/zip-extraction/internal/health/server.go: the readiness gate and the operational server.
-- Package net/http routes a clean path to the handler of that path.
use zip_extraction.Common.{ℕ, Bool, false, Option, none, some, if◌then◌else◌, ◌∷◌}
use zip_extraction.Common.Int.{ℤ}
use zip_extraction.Go.Strings.{Text, text, str_eq}
use zip_extraction.Go.Fmt.{signed_decimal}
use zip_extraction.Extraction.Errors.{Error}

pub record Gate : Type 0 where
  pub is_ready : Bool

abbrev pub new_gate : Gate
new_gate = record { is_ready = false }

unfoldable pub set_ready : Bool → Gate → Gate
set_ready v g = record { is_ready = v }

pub record Response : Type 0 where
  pub status_code : ℕ
  pub content_type : Option Text
  pub body : Text

abbrev json : Option Text
json = some (text "application/json")

unfoldable pub live : Response
live = record { status_code = 200; content_type = json; body = text "{\"status\":\"ok\"}" }

unfoldable pub readiness : Gate → Response
readiness g =
    if g.is_ready
    then record { status_code = 200; content_type = json; body = text "{\"status\":\"ok\"}" }
    else record { status_code = 503; content_type = json; body = text "{\"status\":\"not-ready\"}" }

-- the mux; `metrics` is the handler of Prometheus, `not_found` the answer of net/http
unfoldable pub serve : (metrics not_found : Response) → Gate → Text → Response
unfolding readiness live
serve metrics not_found g path =
    if str_eq path (text "/healthz/live")
    then live
    else if str_eq path (text "/healthz/ready")
    then readiness g
    else if str_eq path (text "/metrics")
    then metrics
    else not_found

-- the fields of http.Server that are set; the times are in seconds
pub record ServerConfig : Type 0 where
  pub addr : Text
  pub read_header_timeout : ℕ
  pub read_timeout : ℕ
  pub write_timeout : ℕ
  pub idle_timeout : ℕ

unfoldable pub new_server : ℤ → ServerConfig
new_server port = record {
  addr = b':' ∷ signed_decimal port;
  read_header_timeout = 5;
  read_timeout = 15;
  write_timeout = 15;
  idle_timeout = 30;
}

-- what ends Start: its context, or ListenAndServe with an error that may be nil
pub data StartEnd : Type 0 where
  context_done : StartEnd
  server_exited : Option Error → StartEnd

-- `is_server_closed` is errors.Is(err, http.ErrServerClosed).
module _ (is_server_closed : Error → Bool) where
  serve_error : Option Error → Option Error
  serve_error none = none
  serve_error (some e) = if is_server_closed e then none else some e

  unfoldable pub start : StartEnd → Option Error
  unfolding serve_error
  start context_done = none
  start (server_exited err) = serve_error err
