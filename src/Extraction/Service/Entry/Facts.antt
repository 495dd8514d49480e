-- ===== src/Extraction/Service/Entry/Facts.antt =====
-- What an entry's outcome says.
use zip_extraction.Common.{
  ℕ, ◌≡◌, arith, ◌⊎◌, inl, inr, refl, ap, ◌∙◌, true, false, Option, none, some, [], if_intro,
  option_intro,
}
use zip_extraction.Common.Int.{ℤ}
use zip_extraction.Go.Strings.{Text}
use zip_extraction.Extraction.Errors.{Error, Try, ok, fail, is_bomb_defence, is_path_validation}
use zip_extraction.Extraction.Types.{
  ClaimCheck, EntryInfo, EntryOutcome, Classification, PipelineFile, entry_status_uploaded,
  entry_status_failed,
}
use zip_extraction.Extraction.ZipOpen.{ZipFile}
use zip_extraction.Retry.Invariants.{do_retry-Keeps}
use zip_extraction.Extraction.Service.{build_child_key, entry_info}
use zip_extraction.Extraction.Service.Effects.{ClassifyRequest, Stream, Ports, M, retry_env}
use zip_extraction.Extraction.Service.Guarantees.{slipsheets, Ensures, Quiet}
use zip_extraction.Extraction.Service.Rows.{
  EntryResult, detect_mime, new_outcome, record_once, record_failed_entry, reject_bomb,
}
use zip_extraction.Extraction.Service.Classify.{
  classify_hop, classify_child, classify_body, classified,
}
use zip_extraction.Extraction.Service.Entry.{
  record_op, record_with_retries, after_record, upload_op, upload_with_retries, after_upload,
  after_peeked, after_open, abort_plain, after_check, after_sanitize, process_entry, uploaded_row,
}

-- The entry that is uploaded has its child key and no reason, and does not abort the archive.
pub record IsUploaded (msg : ClaimCheck) (idx : ℕ) (res : EntryResult) : Type 0 where
  pub status : res.out.status ≡ entry_status_uploaded
  pub key : res.out.child_key ≡ build_child_key msg.pipeline_execution_id idx res.out.safe_name
  pub no_reason : res.out.failure_reason ≡ []
  pub no_abort : res.archive_abort ≡ false

-- The entry that failed gives the archive its own reason, where it aborts it.
pub record IsFailed (res : EntryResult) : Type 0 where
  pub status : res.out.status ≡ entry_status_failed
  pub reason :
      res.archive_abort ≡ true
      → (res.reason ≡ res.out.failure_reason) × (res.detail ≡ res.out.failure_detail)

abbrev pub IsResult : ClaimCheck → ℕ → EntryResult → Type 0
IsResult msg idx res = (res.out.index ≡ idx) × (IsUploaded msg idx res ⊎ IsFailed res)

module _ {S B R : Type 0} (p : Ports S B R) (msg : ClaimCheck) where
  reject_bomb-IsResult :
      (out : EntryOutcome) (idx rule : ℕ) (reason : Text)
      → out.index ≡ idx
      → out.status ≡ entry_status_failed
      → Ensures (IsResult msg idx) (reject_bomb p msg out idx rule reason)
  unfolding reject_bomb record_failed_entry slipsheets
  reject_bomb-IsResult out idx rule reason i s w =
      ((i, inr (record { status = s; reason = λ _. (refl, refl) })), refl)

  -- the classification is all that the optional call changes
  abbrev Stamped : EntryOutcome → EntryOutcome → Type 0
  Stamped out out1 = (c : Option Classification) × (out1 ≡ record out { classification = c })

  classified-Stamped :
      (out : EntryOutcome) (res : Try (Option Classification))
      → Ensures (Stamped out) (classified p msg out res)
  unfolding classified slipsheets
  classified-Stamped out (fail e) w = ((out.classification, refl), refl)
  classified-Stamped out (ok none) w = ((none, refl), refl)
  classified-Stamped out (ok (some c)) w = ((some c, refl), refl)

  classify_body-Stamped :
      (classify : ClassifyRequest B → S → Try (Option Classification) × S) (workspace : Text)
      (out : EntryOutcome) (body : Try (B × ℤ))
      → Ensures (Stamped out) (classify_body p msg classify workspace out body)
  unfolding classify_body slipsheets
  classify_body-Stamped classify workspace out (fail e) w = ((out.classification, refl), refl)
  classify_body-Stamped classify workspace out (ok (body, size)) w = classified-Stamped out _ _

  classify_hop-Stamped :
      (classify : Option (ClassifyRequest B → S → Try (Option Classification) × S))
      (out : EntryOutcome)
      → Ensures (Stamped out) (classify_hop p msg classify out)
  unfolding classify_hop classify_child slipsheets
  classify_hop-Stamped none out w = ((out.classification, refl), refl)
  classify_hop-Stamped (some classify) out w =
      if_intro {A = M S EntryOutcome} (λ m. Ensures (Stamped out) m) _
        (λ w'. ((out.classification, refl), refl)) (λ w'. classify_body-Stamped classify _ out _ _)
        w

  -- the outcome once the entry is uploaded, with its row not written yet
  abbrev Uploaded : ℕ → EntryOutcome → Type 0
  Uploaded idx out =
      ((out.index ≡ idx) × (out.status ≡ entry_status_uploaded))
      × ((out.failure_reason ≡ [])
          × (out.child_key ≡ build_child_key msg.pipeline_execution_id idx out.safe_name))

  after_record-IsResult :
      (out : EntryOutcome) (idx : ℕ) (err : Option Error)
      → Uploaded idx out
      → Ensures (IsResult msg idx) (after_record p msg out idx err)
  unfolding after_record record_failed_entry slipsheets
  after_record-IsResult out idx (some e) ((i, s), (r, k)) w =
      ((i, inr (record { status = refl; reason = λ a. absurd (ground arith) })), refl)
  after_record-IsResult out idx none ((i, s), (r, k)) w =
      let ((c, e), quiet) = classify_hop-Stamped p.classifier out _ in
      (
        (
          ap (λ o. o.index) e ∙ i,
          inl (record {
            status = ap (λ o. o.status) e ∙ s;
            key = rw e k;
            no_reason = ap (λ o. o.failure_reason) e ∙ r;
            no_abort = refl;
          }),
        ),
        quiet,
      )

  record_with_retries-Quiet : (row : PipelineFile) → Quiet (record_with_retries p msg row)
  unfolding record_with_retries record_op record_once slipsheets
  record_with_retries-Quiet row w = (
    tt,
    do_retry-Keeps p.quote p.float p.retry_config (retry_env (Unit {0}) p) (record_op p msg row)
        (λ s. slipsheets s.0.events ≡ slipsheets w.events) (λ s h. h) (λ s d h. h) (λ s h. h)
        (w, tt) refl,
  )

  upload_with_retries-Quiet :
      (out : EntryOutcome) (entry : EntryInfo) (stream : Stream R)
      → Quiet (upload_with_retries p msg out entry stream)
  unfolding upload_with_retries upload_op slipsheets
  upload_with_retries-Quiet out entry stream w = (
    tt,
    do_retry-Keeps p.quote p.float p.retry_config (retry_env (Stream R) p)
        (upload_op p msg out entry) (λ s. slipsheets s.0.events ≡ slipsheets w.events) (λ s h. h)
        (λ s d h. h) (λ s h. h) (w, stream) refl,
  )

  -- before the upload
  abbrev Fresh : ℕ → EntryOutcome → Type 0
  Fresh idx out =
      ((out.index ≡ idx) × (out.status ≡ entry_status_failed)) × (out.failure_reason ≡ [])

  after_upload-IsResult :
      (out : EntryOutcome) (entry : EntryInfo) (idx : ℕ) (err : Option Error)
      → Fresh idx out
      → out.child_key ≡ build_child_key msg.pipeline_execution_id idx out.safe_name
      → Ensures (IsResult msg idx) (after_upload p msg out entry idx err)
  unfolding after_upload record_failed_entry slipsheets
  after_upload-IsResult out entry idx (some e) ((i, s), r) k =
      option_intro {A = M S EntryResult} (Ensures (IsResult msg idx)) (is_bomb_defence e)
        (λ w. ((i, inr (record { status = s; reason = λ a. absurd (ground arith) })), refl))
        (λ bde w. reject_bomb-IsResult out idx bde.rule bde.reason i s w)
  after_upload-IsResult out entry idx none ((i, s), r) k = λ w.
      let quiet = (record_with_retries-Quiet _ w).1 in
      let (good, q) =
        after_record-IsResult _ idx
          (record_with_retries p msg
            (uploaded_row p msg
              (record out { status = entry_status_uploaded; size_bytes = entry.uncompressed_size })
              idx)
            w).0
          ((i, refl), (r, k)) _ in
      (good, q ∙ quiet)

  after_peeked-IsResult :
      (out : EntryOutcome) (entry : EntryInfo) (idx : ℕ) (peeked : Try (Text × Stream R))
      → Fresh idx out
      → Ensures (IsResult msg idx) (after_peeked p msg out entry idx peeked)
  unfolding after_peeked slipsheets
  after_peeked-IsResult out entry idx (fail e) ((i, s), r) =
      option_intro {A = M S EntryResult} (Ensures (IsResult msg idx)) (is_bomb_defence e)
        (λ w. ((i, inr (record { status = s; reason = λ a. absurd (ground arith) })), refl))
        (λ bde w. reject_bomb-IsResult out idx bde.rule bde.reason i s w)
  after_peeked-IsResult out entry idx (ok (peek, stream)) ((i, s), r) = λ w.
      let out1 = record out {
        mime_type = detect_mime p msg peek out.safe_name;
        child_key = build_child_key msg.pipeline_execution_id idx out.safe_name;
      } in
      let quiet = (upload_with_retries-Quiet out1 entry stream w).1 in
      let (good, q) = after_upload-IsResult out1 entry idx _ ((i, s), r) refl _ in (good, q ∙ quiet)

  after_open-IsResult :
      (out : EntryOutcome) (entry : EntryInfo) (idx : ℕ) (opened : Try R)
      → Fresh idx out
      → Ensures (IsResult msg idx) (after_open p msg out entry idx opened)
  unfolding after_open slipsheets
  after_open-IsResult out entry idx (fail e) ((i, s), r) w =
      ((i, inr (record { status = s; reason = λ a. absurd (ground arith) })), refl)
  after_open-IsResult out entry idx (ok r) fresh w = after_peeked-IsResult out entry idx _ fresh w

  after_check-IsResult :
      (out : EntryOutcome) (idx : ℕ) (file : ZipFile R) (err : Option Error)
      → Fresh idx out
      → Ensures (IsResult msg idx) (after_check p msg out idx file err)
  unfolding after_check abort_plain record_failed_entry slipsheets
  after_check-IsResult out idx file (some e) ((i, s), r) =
      option_intro {A = M S EntryResult} (Ensures (IsResult msg idx)) (is_bomb_defence e)
        (λ w. ((i, inr (record { status = s; reason = λ _. (refl, refl) })), refl))
        (λ bde w. reject_bomb-IsResult out idx bde.rule bde.reason i s w)
  after_check-IsResult out idx file none fresh =
      λ w. after_open-IsResult out (entry_info file) idx file.opened fresh w

  after_sanitize-IsResult :
      (out : EntryOutcome) (idx : ℕ) (file : ZipFile R) (name : Try Text)
      → Fresh idx out
      → Ensures (IsResult msg idx) (after_sanitize p msg out idx file name)
  unfolding after_sanitize abort_plain record_failed_entry slipsheets
  after_sanitize-IsResult out idx file (fail e) ((i, s), r) =
      option_intro {A = M S EntryResult} (Ensures (IsResult msg idx)) (is_path_validation e)
        (λ w. ((i, inr (record { status = s; reason = λ _. (refl, refl) })), refl))
        (λ pve w. ((i, inr (record { status = s; reason = λ _. (refl, refl) })), refl))
  after_sanitize-IsResult out idx file (ok name) fresh =
      λ w. after_check-IsResult (record out { safe_name = name }) idx file _ fresh w

  -- The outcome of an entry has the entry's index. It is uploaded, with its child key, no reason and
  -- no effect on the archive, or it failed, and gives the archive its own reason and detail where it
  -- aborts the archive. No slipsheet is written.
  pub process_entry-IsResult :
      (idx : ℕ) (file : ZipFile R) → Ensures (IsResult msg idx) (process_entry p msg idx file)
  unfolding process_entry new_outcome
  process_entry-IsResult idx file w = after_sanitize-IsResult _ idx file _ ((refl, refl), refl) _
