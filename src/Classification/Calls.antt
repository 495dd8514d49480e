-- ===== src/Classification/Calls.antt =====
-- How the state after a classification is related to the state before it.
use mathlib.Core.Path.{subst}
use zip_extraction.Common.{◌≡◌, Bool-cases, inl, inr, Option, none, some, List, is_empty}
use zip_extraction.Common.Int.{ℤ, pos}
use zip_extraction.Go.Strings.{Text}
use zip_extraction.Extraction.Errors.{Error, Try, ok, fail}
use zip_extraction.Extraction.Types.{Classification}
use zip_extraction.Extraction.Service.Effects.{ClassifyRequest}
use zip_extraction.Classification.{
  HttpPorts, HttpRequest, Part, Request, Client, send_form, copied, with_body, classify,
  adapter_classify, adapter_of, classifier_port,
}

-- A preorder on the states that has the reading of the body and the HTTP request has the whole call.
module _ {S B : Type 0} (h : HttpPorts S B) (Rel : S → S → Type 0) (same : (s : S) → Rel s s)
    (then : (a b c : S) → Rel a b → Rel b c → Rel a c)
    (reads : (body : B) (s : S) → Rel s (h.read_all body s).1)
    (sends : (request : HttpRequest) (s : S) → Rel s (h.send request s).1) where
  send_form-Related :
      (c : Client) (parts : List Part) (err : Option Error) (s : S)
      → Rel s (send_form h c parts err s).1
  unfolding send_form
  send_form-Related c parts none s = sends _ s
  send_form-Related c parts (some e) s = same s

  copied-Related :
      (c : Client) (req : Request B) (content : Try Text) (s : S)
      → Rel s (copied h c req (content, s)).1
  unfolding copied
  copied-Related c req (fail e) s = same s
  copied-Related c req (ok content) s = send_form-Related c _ _ s

  with_body-Related :
      (c : Client) (req : Request B) (body : Option B) (s : S) → Rel s (with_body h c req body s).1
  unfolding with_body
  with_body-Related c req none s = same s
  with_body-Related c req (some body) s =
      let (content, t) = h.read_all body s in
      then s t (copied h c req (content, t)).1 (reads body s) (copied-Related c req content t)

  classify-Related : (c : Client) (req : Request B) (s : S) → Rel s (classify h c req s).1
  unfolding classify
  classify-Related c req s = elim (Bool-cases (is_empty req.workspace_id)) [
    | inl e ↦ rw (classify, e) (same s)
    | inr e ↦ rw (classify, e) (with_body-Related c req req.body s)
  ]

  adapter_of-Related :
      (c : Option Client) (req : ClassifyRequest B) (s : S) → Rel s (adapter_of h c req s).1
  unfolding adapter_of adapter_classify
  adapter_of-Related none req s = same s
  adapter_of-Related (some c) req s =
      classify-Related c
        (record {
          workspace_id = req.workspace_id;
          filename = req.filename;
          content_type = req.content_type;
          parent_archive_depth = pos req.parent_archive_depth;
          body = some req.body;
        })
        s

  -- what a port that is there does
  PortMoves : Option (ClassifyRequest B → S → Try (Option Classification) × S) → Type 0
  PortMoves none = Unit {0}
  PortMoves (some port) = (req : ClassifyRequest B) (s : S) → Rel s (port req s).1

  classifier_port-PortMoves :
      (url : Text) (timeout_sec : ℤ) → PortMoves (classifier_port h url timeout_sec)
  unfolding classifier_port PortMoves
  classifier_port-PortMoves url timeout_sec = elim (Bool-cases (is_empty url)) [
    | inl e ↦ rw (classifier_port, e) tt
    | inr e ↦ rw (classifier_port, e) (λ req s. adapter_of-Related _ req s)
  ]

  pub classifier_port-Related :
      (url : Text) (timeout_sec : ℤ)
      (port : ClassifyRequest B → S → Try (Option Classification) × S)
      → classifier_port h url timeout_sec ≡ some port
      → (req : ClassifyRequest B) (s : S) → Rel s (port req s).1
  unfolding PortMoves
  classifier_port-Related url timeout_sec port is =
      subst PortMoves is (classifier_port-PortMoves url timeout_sec)
