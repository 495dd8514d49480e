-- ===== src/Classification/Laws.antt =====
-- What the client gives a result for, and the name it sends.
use zip_extraction.Common.{
  ◌≡◌, ◌≢◌, ◌∙◌, ap, refl, true, false, Option, none, some, List, [], ◌∷◌, ◌==◌, ==_iff, Bool-cases,
  inl, inr, is_empty, arith,
}
use zip_extraction.Common.Int.{pos}
use zip_extraction.Go.Strings.{Text, text}
use zip_extraction.Go.Strings.Laws.{NoByte, str_eq_ne}
use zip_extraction.Go.Path.{dot}
use zip_extraction.Go.Path.Laws.{IsPlain, base_plain}
use zip_extraction.Validation.{safe, sanitize}
use zip_extraction.Validation.Laws.{sanitize-IsSafeName}
use zip_extraction.Extraction.Errors.{Error, Try, ok, fail}
use zip_extraction.Extraction.Types.{Classification}
use zip_extraction.Extraction.Service.Effects.{ClassifyRequest}
use zip_extraction.Classification.{
  ClassificationResult, Request, Client, base_name, Part, form, HttpResponse, Envelope, result_of,
  HttpPorts, decoded, answered, classify_url, send_form, copied, with_body, classify, adapted,
  adapt, adapter_classify,
}

module _ {S B : Type 0} (h : HttpPorts S B) (c : Client) where
  -- The one request that gives a result, and its answer.
  pub record Exchange (req : Request B) (s : S) (r : ClassificationResult) (s' : S) : Type 0 where
    pub body : B
    pub content : Text
    pub s1 : S
    pub resp : HttpResponse
    pub env : Envelope
    pub workspace : is_empty req.workspace_id ≡ false
    pub has_body : req.body ≡ some body
    pub body_read : h.read_all body s ≡ (ok content, s1)
    pub url_parsed : h.url_error (classify_url h c) ≡ none
    pub sent :
        h.send
          (record { method = text "POST"; url = classify_url h c; parts = form req content })
          s1
        ≡ (ok resp, s')
    pub status : resp.status_code ≡ 200
    pub read : h.decode resp.body ≡ ok env
    pub is_ok : env.is_ok ≡ true
    pub result : r ≡ result_of env

  decoded_ok :
      (t : Try Envelope) {r : ClassificationResult}
      → decoded h c t ≡ ok r
      → (env : Envelope) × (t ≡ ok env) × (env.is_ok ≡ true) × (r ≡ result_of env)
  unfolding decoded
  decoded_ok (fail e) q = cc
  decoded_ok (ok env) q = elim (Bool-cases env.is_ok) [
    | inl e ↦ let q' = rw e at q in (env, refl, e, cc)
    | inr e ↦ let q' = rw e at q in cc
  ]

  answered_ok :
      (t : Try HttpResponse) {r : ClassificationResult}
      → answered h c t ≡ ok r
      → (resp : HttpResponse) × (t ≡ ok resp)
        × (resp.status_code ≡ 200)
        × (decoded h c (h.decode resp.body) ≡ ok r)
  unfolding answered
  answered_ok (fail e) q = cc
  answered_ok (ok resp) q = elim (Bool-cases (resp.status_code == 200)) [
    | inl e ↦ (resp, refl, (==_iff resp.status_code 200).0 e, rw e at q)
    | inr e ↦ let q' = rw e at q in cc
  ]

  -- the answer to a form, where the URL has been parsed
  send_form_ok :
      (parts : List Part) (err : Option Error) (s : S) {r : ClassificationResult} {s' : S}
      → send_form h c parts err s ≡ (ok r, s')
      → (err ≡ none)
        × ((resp : HttpResponse) × (env : Envelope) × (h.send
                (record { method = text "POST"; url = classify_url h c; parts = parts })
                s
              ≡ (ok resp, s'))
            × (resp.status_code ≡ 200)
            × (h.decode resp.body ≡ ok env)
            × (env.is_ok ≡ true)
            × (r ≡ result_of env))
  unfolding send_form
  send_form_ok parts (some e) s q = let q' = ap (λ p. p.0) q in cc
  send_form_ok parts none s {r} {s'} q =
      let got = h.send (record { method = text "POST"; url = classify_url h c; parts = parts }) s in
      let (resp, e, status, rest) = answered_ok got.0 (ap (λ p. p.0) q) in
      let (env, read, is_ok, result) = decoded_ok (h.decode resp.body) rest in
      (refl, (resp, env, pair got e (ap (λ p. p.1) q), status, read, is_ok, result))
    where
      pair :
          (got : Try HttpResponse × S) {x : Try HttpResponse} {y : S}
          → got.0 ≡ x
          → got.1 ≡ y
          → got ≡ (x, y)
      pair (a, b) e e' = cc

  copied_ok :
      (req : Request B) (got : Try Text × S) {r : ClassificationResult} {s' : S}
      → copied h c req got ≡ (ok r, s')
      → (content : Text) × (s1 : S) × (got ≡ (ok content, s1))
        × (send_form h c (form req content) (h.url_error (classify_url h c)) s1 ≡ (ok r, s'))
  unfolding copied
  copied_ok req (fail e, s1) q = let q' = ap (λ p. p.0) q in cc
  copied_ok req (ok content, s1) q = (content, s1, refl, q)

  with_body_ok :
      (req : Request B) (o : Option B) (s : S) {r : ClassificationResult} {s' : S}
      → with_body h c req o s ≡ (ok r, s')
      → (body : B) × (o ≡ some body) × (copied h c req (h.read_all body s) ≡ (ok r, s'))
  unfolding with_body
  with_body_ok req none s q = let q' = ap (λ p. p.0) q in cc
  with_body_ok req (some body) s q = (body, refl, q)

  classify-Exchange :
      (req : Request B) (s s' : S) (r : ClassificationResult)
      → classify h c req s ≡ (ok r, s')
      → Exchange req s r s'
  unfolding classify
  classify-Exchange req s s' r q = elim (Bool-cases (is_empty req.workspace_id)) [
    | inl e ↦ let q' = ap (λ p. p.0) (rw e at q) in cc
    | inr e ↦
        let (body, has_body, q1) = with_body_ok req req.body s (rw e at q) in
        let (content, s1, body_read, q2) = copied_ok req (h.read_all body s) q1 in
        let (url_parsed, (resp, env, sent, status, read, is_ok, result)) =
          send_form_ok (form req content) (h.url_error (classify_url h c)) s1 q2 in
        record {
          body = body;
          content = content;
          s1 = s1;
          resp = resp;
          env = env;
          workspace = e;
          has_body = has_body;
          body_read = body_read;
          url_parsed = url_parsed;
          sent = sent;
          status = status;
          read = read;
          is_ok = is_ok;
          result = result;
        }
  ]

  adapt_ok :
      (t : Try ClassificationResult) {o : Option Classification}
      → adapt h c t ≡ ok o
      → (r : ClassificationResult) × (t ≡ ok r) × (o ≡ some (adapted h c r))
  unfolding adapt
  adapt_ok (fail e) q = cc
  adapt_ok (ok r) q = (r, refl, cc)

  -- The client gives a result only for a request with a workspace and a body that is read to its end,
  -- which it sends once, as a form, to the service's URL, and only from an answer with the status 200
  -- whose body is decoded and says `ok`; the result has the fields of that body. The adapter of main.go
  -- hands the result on, and gives no empty one.
  pub adapter_classify-Exchange :
      (req : ClassifyRequest B) (s s' : S) (o : Option Classification)
      → adapter_classify h c req s ≡ (ok o, s')
      → (r : ClassificationResult) × (o ≡ some (adapted h c r))
        × Exchange
            (record {
              workspace_id = req.workspace_id;
              filename = req.filename;
              content_type = req.content_type;
              parent_archive_depth = pos req.parent_archive_depth;
              body = some req.body;
            })
            s
            r
            s'
  unfolding adapter_classify
  adapter_classify-Exchange req s s' o q =
      let full : Request B = record {
        workspace_id = req.workspace_id;
        filename = req.filename;
        content_type = req.content_type;
        parent_archive_depth = pos req.parent_archive_depth;
        body = some req.body;
      } in
      let got = classify h c full s in
      let (r, e, same) = adapt_ok got.0 (ap (λ p. p.0) q) in
      (r, same, classify-Exchange full s s' r (pair got e (ap (λ p. p.1) q)))
    where
      pair :
          (got : Try ClassificationResult × S) {x : Try ClassificationResult} {y : S}
          → got.0 ≡ x
          → got.1 ≡ y
          → got ≡ (x, y)
      pair (a, b) e e' = cc

base_name_plain : (s : Text) → IsPlain s → base_name s ≡ s
unfolding base_name text
base_name_plain [] p = absurd (p.nonempty refl)
base_name_plain (c ∷ s) p =
    rw
      (
        base_plain (c ∷ s) p,
        str_eq_ne (c ∷ s) dot p.not_dot,
        str_eq_ne (c ∷ s) (b'/' ∷ []) (λ e. slash (c ∷ s) p.no_slash e),
      )
      refl
  where
    slash : (t : Text) → NoByte b'/' t → t ≢ b'/' ∷ []
    slash [] n e = cc
    slash (x ∷ t) n e = n.0 (ground arith)

-- the file name of the first part
abbrev pub sent_name : List Part → Option Text
sent_name [] = none
sent_name (part ∷ parts) = part.file_name

-- The name that Sanitize has given an entry is sent as it is, whatever else the request holds.
pub form-sanitize :
    {B : Type 0} (raw name : Text) (req : Request B) (content : Text)
    → sanitize raw ≡ safe name
    → req.filename ≡ name
    → sent_name (form req content) ≡ some name
unfolding form
form-sanitize raw name req content h e =
    ap some (ap base_name e ∙ base_name_plain name (sanitize-IsSafeName raw name h).plain)
