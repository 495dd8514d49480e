-- ===== src/Extraction/Service/Entry/Calls.antt =====
-- What the calls for an entry leave in the list of calls.
use zip_extraction.Common.{
  ℕ, ◌≡◌, arith, inl, inr, refl, ap, ◌∙◌, true, Option, Bool-cases, none, some, List, [], ◌∷◌, ◌++◌,
  is_empty, if◌then◌else◌,
}
use zip_extraction.Common.Int.{ℤ}
use zip_extraction.Go.Strings.{Text, text}
use zip_extraction.Extraction.Errors.{Try, ok, fail, is_some}
use zip_extraction.Extraction.Types.{
  ClaimCheck, EntryInfo, EntryOutcome, Classification, PipelineFile, entry_status_uploaded,
  entry_status_failed,
}
use zip_extraction.Retry.Success.{do_retry-Succeeds}
use zip_extraction.Extraction.Service.{row_pk, row_sk}
use zip_extraction.Extraction.Service.Effects.{
  ClassifyRequest, Event, upload_call, record_call, metric, classification_failure, World, Stream,
  Ports, M, retry_env,
}
use zip_extraction.Extraction.Service.Rows.{record_once}
use zip_extraction.Extraction.Service.Classify.{
  classify_hop, classify_child, classify_body, classified,
}
use zip_extraction.Extraction.Service.Entry.{
  record_op, record_with_retries, upload_op, upload_with_retries,
}

-- the keys of the row of an entry
abbrev pub keys_at : ClaimCheck → ℕ → Text × Text
keys_at msg idx = (row_pk msg.pipeline_execution_id, row_sk idx)

-- An upload to the key has succeeded.
abbrev pub UploadedTo : Text → List Event → Type 0
UploadedTo key events =
    (bucket : Text) × ((size : ℤ) × ((mime : Text) × ((later : List Event) × ((before : List Event)
            × (events ≡ later ++ (upload_call bucket key size mime none ∷ before))))))

-- A row with the keys and with the child key has been recorded, after an upload to the child key had
-- succeeded.
abbrev pub RecordedAfterUpload : Text × Text → Text → List Event → Type 0
RecordedAfterUpload keys key events =
    (row : PipelineFile) × ((later : List Event) × ((before : List Event) × ((events
            ≡ later ++ (record_call row none ∷ before))
          × ((row.child_key ≡ key)
              × ((row.status ≡ entry_status_uploaded)
                  × (((row.pk, row.sk) ≡ keys) × UploadedTo key before))))))

pub UploadedTo-cons :
    (key : Text) (e : Event) (events : List Event)
    → UploadedTo key events
    → UploadedTo key (e ∷ events)
UploadedTo-cons key e events (bucket, (size, (mime, (later, (before, h))))) =
    (bucket, (size, (mime, (e ∷ later, (before, ap (λ es. e ∷ es) h)))))

pub RecordedAfterUpload-cons :
    (keys : Text × Text) (key : Text) (e : Event) (events : List Event)
    → RecordedAfterUpload keys key events
    → RecordedAfterUpload keys key (e ∷ events)
RecordedAfterUpload-cons keys key e events (row, (later, (before, (h, rest)))) =
    (row, (e ∷ later, (before, (ap (λ es. e ∷ es) h, rest))))

pub failed_not_uploaded : {A : Type 0} → entry_status_failed ≡ entry_status_uploaded → A
unfolding text
failed_not_uploaded e = absurd (ground arith)

module _ {S B R : Type 0} (p : Ports S B R) (msg : ClaimCheck)
    (ends : (d : ℤ) (s : S)
      → (p.wait d s).0 ≡ true
      → is_some (p.ctx_err (p.wait d s).1) ≡ true) where
  pub record_with_retries-Recorded :
      (row : PipelineFile) (w : World S)
      → UploadedTo row.child_key w.events
      → row.status ≡ entry_status_uploaded
      → (record_with_retries p msg row w).0 ≡ none
      → RecordedAfterUpload
          (row.pk, row.sk)
          row.child_key
          (record_with_retries p msg row w).1.events
  unfolding record_with_retries record_op record_once
  record_with_retries-Recorded row w up status e =
      let ((w0, u), (before, (stored, last))) =
        do_retry-Succeeds p.quote p.float p.retry_config (retry_env (Unit {0}) p)
          (record_op p msg row) (λ s. UploadedTo row.child_key s.0.events)
          (λ d s h. ends d s.0.env h) (λ s h. h) (λ s d h. h)
          (λ s h. UploadedTo-cons row.child_key _ s.0.events h) (w, tt) up e in
      (
        row,
        (
          [],
          (
            w0.events,
            (
              ap (λ s. s.0.events) last ∙ ap (λ err. record_call row err ∷ w0.events) stored,
              (refl, (status, (refl, before))),
            ),
          ),
        ),
      )

  pub upload_with_retries-Uploaded :
      (out : EntryOutcome) (entry : EntryInfo) (stream : Stream R) (w : World S)
      → (upload_with_retries p msg out entry stream w).0 ≡ none
      → UploadedTo out.child_key (upload_with_retries p msg out entry stream w).1.events
  unfolding upload_with_retries upload_op
  upload_with_retries-Uploaded out entry stream w e =
      let ((w0, left), (_, (stored, last))) =
        do_retry-Succeeds p.quote p.float p.retry_config (retry_env (Stream R) p)
          (upload_op p msg out entry) (λ s. Unit {0}) (λ d s h. ends d s.0.env h) (λ s h. h)
          (λ s d h. h) (λ s h. h) (w, stream) tt e in
      (
        p.config.staging_bucket,
        (
          entry.uncompressed_size,
          (
            out.mime_type,
            (
              [],
              (
                w0.events,
                ap (λ s. s.0.events) last
                    ∙ ap
                        (λ err.
                          upload_call p.config.staging_bucket out.child_key entry.uncompressed_size
                            out.mime_type err
                          ∷ w0.events)
                        stored,
              ),
            ),
          ),
        ),
      )

  -- the optional call only adds to what was done
  abbrev pub Keeps : Text × Text → Text → EntryOutcome × World S → Type 0
  Keeps keys key (out, w) = (out.child_key ≡ key) × RecordedAfterUpload keys key w.events

  abbrev pub KeepsFrom : Text × Text → Text → M S EntryOutcome → Type 0
  KeepsFrom keys key m =
      (w : World S) → RecordedAfterUpload keys key w.events → Keeps keys key (m w)

  classified-Keeps :
      (keys : Text × Text) (out : EntryOutcome) (res : Try (Option Classification)) (w : World S)
      → RecordedAfterUpload keys out.child_key w.events
      → Keeps keys out.child_key (classified p msg out res w)
  unfolding classified
  classified-Keeps keys out (fail e) w h =
      (refl, RecordedAfterUpload-cons keys out.child_key _ w.events h)
  classified-Keeps keys out (ok none) w h = (refl, h)
  classified-Keeps keys out (ok (some c)) w h =
      (refl, RecordedAfterUpload-cons keys out.child_key _ w.events h)

  classify_body-Keeps :
      (keys : Text × Text) (classify : ClassifyRequest B → S → Try (Option Classification) × S)
      (workspace : Text) (out : EntryOutcome) (body : Try (B × ℤ)) (w : World S)
      → RecordedAfterUpload keys out.child_key w.events
      → Keeps keys out.child_key (classify_body p msg classify workspace out body w)
  unfolding classify_body
  classify_body-Keeps keys classify workspace out (fail e) w h =
      (refl, RecordedAfterUpload-cons keys out.child_key _ w.events h)
  classify_body-Keeps keys classify workspace out (ok (body, size)) w h =
      classified-Keeps keys out _ _ h

  pub classify_hop-Keeps :
      (keys : Text × Text)
      (classify : Option (ClassifyRequest B → S → Try (Option Classification) × S))
      (out : EntryOutcome)
      → KeepsFrom keys out.child_key (classify_hop p msg classify out)
  unfolding classify_hop classify_child
  classify_hop-Keeps keys none out = λ w h. (refl, h)
  classify_hop-Keeps keys (some classify) out = λ w h.
      let workspace =
        if is_empty msg.tenant_id
        then p.config.classification_fallback_workspace
        else msg.tenant_id in
      elim (Bool-cases (is_empty workspace)) [
        | inl e ↦
            rw (classify_hop, classify_child, e)
              (
                refl,
                RecordedAfterUpload-cons keys out.child_key
                    (metric (classification_failure (text "no-workspace"))) w.events h,
              )
        | inr e ↦
            let (body, env) = p.download p.config.staging_bucket out.child_key w.env in
            rw (classify_hop, classify_child, e)
              (classify_body-Keeps keys classify workspace out body (record w { env = env }) h)
      ]
