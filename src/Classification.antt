-- ===== src/Classification.antt =====
-- services/zip-extraction/internal/classification/classification.go: the client of the classification
-- service, and classifierAdapter of cmd/zip-extraction/main.go. A body of the type `B` is read in the
-- state `S` of everything outside; the HTTP client, the parser of URLs and JSON are parameters. The
-- multipart writer works on a buffer, so that its own calls do not fail.
pub mod Calls
pub mod Form
pub mod Laws
mod Tests
pub use Form.{Request, Part}
unfoldable pub use Form.{base_name, extension_hint, form}
use zip_extraction.Common.{
  ℕ, ◌+◌, Bool, true, false, ◌&&◌, ◌||◌, not, Option, none, some, List, [], ◌∷◌, ◌++◌, ◌==◌, ltb,
  leb, if◌then◌else◌, is_empty, length, take,
}
use zip_extraction.Common.Int.{ℤ, pos, gtb_ℤ, times64}
use zip_extraction.Go.Strings.{Text, text, str_eq, trim_prefix}
use zip_extraction.Go.Strings.Trim.{is_blank, trim_right_slashes}
use zip_extraction.Go.Fmt.{decimal, signed_decimal}
use zip_extraction.Go.Float.{Float64}
use zip_extraction.Go.Path.{dot, base, ext}
use zip_extraction.Extraction.Errors.{Error, plain, wrap, Try, ok, fail}
use zip_extraction.Extraction.Types.{Classification}
use zip_extraction.Extraction.Service.Effects.{ClassifyRequest}

pub record ClassificationResult : Type 0 where
  pub format : Text
  pub category : Text
  pub sub_category : Text
  pub confidence_score : Float64
  pub detection_tier : Text
  pub is_forced_slipsheet : Bool
  pub slipsheet_reason : Text
  pub content_hash : Text
  pub is_duplicate : Bool
  pub policy_version : Text
  pub elapsed_ms : ℤ

-- the times are in nanoseconds
pub record ClientConfig : Type 0 where
  pub url : Text
  pub timeout : ℤ

pub record Client : Type 0 where
  pub url : Text
  pub timeout : ℤ

-- New; none is the disabled classifier
unfoldable pub new_client : ClientConfig → Option Client
unfolding is_blank trim_right_slashes
new_client cfg =
    if is_blank cfg.url
    then none
    else some (record {
      url = trim_right_slashes cfg.url;
      timeout = if gtb_ℤ cfg.timeout (pos 0) then cfg.timeout else pos 30000000000;
    })

unfoldable pub truncate : Text → ℕ → Text
truncate s n = if leb (length s) n then s else take n s ++ text "..."

-- the Content-Type is that of the form
pub record HttpRequest : Type 0 where
  pub method : Text
  pub url : Text
  pub parts : List Part

pub record HttpResponse : Type 0 where
  pub status_code : ℕ
  pub body : Text

-- the body of an answer, as it is decoded
pub record Envelope : Type 0 where
  pub is_ok : Bool
  pub elapsed_ms : ℤ
  pub workspace_id : Text
  pub format : Text
  pub category : Text
  pub sub_category : Text
  pub confidence_score : Float64
  pub detection_tier : Text
  pub is_forced_slipsheet : Bool
  pub slipsheet_reason : Text
  pub content_hash : Text
  pub is_duplicate : Bool
  pub policy_version : Text

unfoldable pub result_of : Envelope → ClassificationResult
result_of env = record {
  format = env.format;
  category = env.category;
  sub_category = env.sub_category;
  confidence_score = env.confidence_score;
  detection_tier = env.detection_tier;
  is_forced_slipsheet = env.is_forced_slipsheet;
  slipsheet_reason = env.slipsheet_reason;
  content_hash = env.content_hash;
  is_duplicate = env.is_duplicate;
  policy_version = env.policy_version;
  elapsed_ms = env.elapsed_ms;
}

-- `read_all` reads a body to its end; `url_error` is the error of http.NewRequestWithContext for a
-- URL; `send` is http.Client.Do; `decode` reads the first JSON value of a body.
pub record HttpPorts (S B : Type 0) : Type 0 where
  pub read_all : B → S → Try Text × S
  pub url_error : Text → Option Error
  pub send : HttpRequest → S → Try HttpResponse × S
  pub decode : Text → Try Envelope

module _ {S B : Type 0} (h : HttpPorts S B) (c : Client) where
  decoded : Try Envelope → Try ClassificationResult
  decoded (fail e) = fail (wrap (text "classification: decode response: ") e)
  decoded (ok env) =
      if not env.is_ok
      then fail (plain (text "classification: response ok=false"))
      else ok (result_of env)

  unfoldable pub parse_response : Text → Try ClassificationResult
  unfolding decoded
  parse_response body = decoded (h.decode body)

  unfoldable pub answered : Try HttpResponse → Try ClassificationResult
  unfolding parse_response truncate
  answered (fail e) = fail (wrap (text "classification: do request: ") e)
  answered (ok resp) =
      if not (resp.status_code == 200)
      then fail (
          plain (
            text "classification: http "
            ++ (decimal resp.status_code ++ (text ": " ++ truncate (take 4096 resp.body) 512))))
      else parse_response resp.body

  unfoldable pub classify_url : Text
  classify_url = c.url ++ text "/api/classify"

  send_form : List Part → Option Error → S → Try ClassificationResult × S
  unfolding answered classify_url
  send_form parts (some e) s = (fail (wrap (text "classification: new request: ") e), s)
  send_form parts none s =
      let (resp, s') =
        h.send (record { method = text "POST"; url = classify_url; parts = parts }) s in
      (answered resp, s')

  copied : Request B → Try Text × S → Try ClassificationResult × S
  unfolding send_form form
  copied req (fail e, s) = (fail (wrap (text "classification: copy body: ") e), s)
  copied req (ok content, s) = send_form (form req content) (h.url_error classify_url) s

  with_body : Request B → Option B → S → Try ClassificationResult × S
  unfolding copied
  with_body req none s = (fail (plain (text "classification: body required")), s)
  with_body req (some body) s = copied req (h.read_all body s)

  -- Client.Classify
  unfoldable pub classify : Request B → S → Try ClassificationResult × S
  unfolding with_body
  classify req s =
      if is_empty req.workspace_id
      then (fail (plain (text "classification: workspaceId required")), s)
      else with_body req req.body s

  -- the Classification that classifierAdapter makes
  unfoldable pub adapted : ClassificationResult → Classification
  adapted r = record {
    format = r.format;
    category = r.category;
    sub_category = r.sub_category;
    confidence_score = r.confidence_score;
    detection_tier = r.detection_tier;
    is_forced_slipsheet = r.is_forced_slipsheet;
    slipsheet_reason = r.slipsheet_reason;
    content_hash = r.content_hash;
    is_duplicate = r.is_duplicate;
    policy_version = r.policy_version;
    elapsed_ms = r.elapsed_ms;
  }

  adapt : Try ClassificationResult → Try (Option Classification)
  unfolding adapted
  adapt (fail e) = fail e
  adapt (ok r) = ok (some (adapted r))

  -- classifierAdapter.Classify over the client
  unfoldable pub adapter_classify : ClassifyRequest B → S → Try (Option Classification) × S
  unfolding adapt classify
  adapter_classify req s =
      let (r, s') =
        classify
          (record {
            workspace_id = req.workspace_id;
            filename = req.filename;
            content_type = req.content_type;
            parent_archive_depth = pos req.parent_archive_depth;
            body = some req.body;
          })
          s in
      (adapt r, s')

module _ {S B : Type 0} (h : HttpPorts S B) where
  -- the adapter over what New returns; the disabled classifier gives no result and no error
  unfoldable pub adapter_of :
      Option Client → ClassifyRequest B → S → Try (Option Classification) × S
  unfolding adapter_classify
  adapter_of none req s = (ok none, s)
  adapter_of (some c) req s = adapter_classify h c req s

  -- the classifier that main.go hands to the service: none where there is no URL
  unfoldable pub classifier_port :
      Text → ℤ → Option (ClassifyRequest B → S → Try (Option Classification) × S)
  unfolding adapter_of new_client times64
  classifier_port url timeout_sec =
      if is_empty url
      then none
      else some
          (adapter_of (new_client (record { url = url; timeout = times64 timeout_sec 1000000000 })))
