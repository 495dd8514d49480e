-- ===== src/Extraction/Service/Entry/Related.antt =====
-- How the world after an entry is related to the world before it.
use zip_extraction.Common.{ℕ, ◌≡◌, refl, Option, none, some, if_intro, option_intro}
use zip_extraction.Common.Int.{ℤ}
use zip_extraction.Go.Strings.{Text}
use zip_extraction.Extraction.Errors.{Error, Try, ok, fail, is_bomb_defence, is_path_validation}
use zip_extraction.Extraction.Types.{
  ClaimCheck, EntryInfo, EntryOutcome, Classification, PipelineFile,
}
use zip_extraction.Extraction.ZipOpen.{ZipFile}
use zip_extraction.Retry.Invariants.{do_retry-Keeps}
use zip_extraction.Extraction.Service.{build_child_key, entry_info}
use zip_extraction.Extraction.Service.Effects.{ClassifyRequest, Stream, World, Ports, M, retry_env}
use zip_extraction.Extraction.Service.Relations.{in_state, IsClosed, Moves}
use zip_extraction.Extraction.Service.Rows.{
  EntryResult, detect_mime, record_once, failed_row, record_failed_entry, reject_bomb,
}
use zip_extraction.Extraction.Service.Classify.{
  classify_hop, classify_child, classify_body, classified,
}
use zip_extraction.Extraction.Service.Entry.Calls.{keys_at}
use zip_extraction.Extraction.Service.Entry.{
  record_op, record_with_retries, after_record, uploaded_row, upload_op, upload_with_retries,
  after_upload, after_peeked, after_open, abort_plain, after_check, after_sanitize, process_entry,
}

module _ {S B R : Type 0} (p : Ports S B R) (Keys : Text × Text → Type 0)
    (Rel : World S → World S → Type 0) (closed : IsClosed p Keys Rel) (msg : ClaimCheck) where
  classified-Related :
      (out : EntryOutcome) (res : Try (Option Classification))
      → Moves Rel (classified p msg out res)
  unfolding classified
  classified-Related out (fail e) w = closed.counted _ w
  classified-Related out (ok none) w = closed.same w
  classified-Related out (ok (some c)) w = closed.counted _ w

  classify_body-Related :
      (classify : ClassifyRequest B → S → Try (Option Classification) × S)
      → ((req : ClassifyRequest B) (w : World S) → Rel w (in_state w (classify req w.env).1))
      → (workspace : Text) (out : EntryOutcome) (body : Try (B × ℤ))
      → Moves Rel (classify_body p msg classify workspace out body)
  unfolding classify_body
  classify_body-Related classify moves workspace out (fail e) w = closed.counted _ w
  classify_body-Related classify moves workspace out (ok (body, size)) w =
      closed.then _ _ _ (moves _ w) (classified-Related out _ _)

  pub classify_hop-Related :
      (classify : Option (ClassifyRequest B → S → Try (Option Classification) × S))
      → p.classifier ≡ classify
      → (out : EntryOutcome) → Moves Rel (classify_hop p msg classify out)
  unfolding classify_hop classify_child
  classify_hop-Related none e out w = closed.same w
  classify_hop-Related (some classify) e out w =
      if_intro {A = M S EntryOutcome} (Moves Rel) _ (λ w'. closed.counted _ w')
        (λ w'.
          closed.then _ _ _ (closed.download _ _ w')
            (classify_body-Related classify (closed.classify classify e) _ out _ _))
        w

  pub upload_with_retries-Related :
      (out : EntryOutcome) (entry : EntryInfo) (stream : Stream R)
      → Moves Rel (upload_with_retries p msg out entry stream)
  unfolding upload_with_retries upload_op
  upload_with_retries-Related out entry stream w =
      do_retry-Keeps p.quote p.float p.retry_config (retry_env (Stream R) p)
        (upload_op p msg out entry) (λ s. Rel w s.0)
        (λ s h. closed.then w s.0 _ h (closed.rand s.0))
        (λ s d h. closed.then w s.0 _ h (closed.wait d s.0))
        (λ s h. closed.then w s.0 _ h (closed.upload _ _ _ _ _ _ s.0)) (w, stream) (closed.same w)

  -- the keys of the entry's row are among them
  module _ (idx : ℕ) (writes : Keys (keys_at msg idx)) where
    reject_bomb-Related :
        (out : EntryOutcome) (rule : ℕ) (reason : Text)
        → Moves Rel (reject_bomb p msg out idx rule reason)
    unfolding reject_bomb record_failed_entry failed_row record_once
    reject_bomb-Related out rule reason w =
        closed.then _ _ _ (closed.counted _ w) (closed.record_entry _ _ writes)

    abort_plain-Related : (out : EntryOutcome) (e : Error) → Moves Rel (abort_plain p msg out idx e)
    unfolding abort_plain record_failed_entry failed_row record_once
    abort_plain-Related out e w = closed.record_entry _ w writes

    after_record-Related :
        (out : EntryOutcome) (err : Option Error) → Moves Rel (after_record p msg out idx err)
    unfolding after_record record_failed_entry failed_row record_once
    after_record-Related out (some e) w = closed.record_entry _ w writes
    after_record-Related out none w =
        closed.then _ _ _ (closed.counted _ w) (classify_hop-Related p.classifier refl out _)

    record_with_retries-Related :
        (row : PipelineFile) → Keys (row.pk, row.sk) → Moves Rel (record_with_retries p msg row)
    unfolding record_with_retries record_op record_once
    record_with_retries-Related row may w =
        do_retry-Keeps p.quote p.float p.retry_config (retry_env (Unit {0}) p) (record_op p msg row)
          (λ s. Rel w s.0) (λ s h. closed.then w s.0 _ h (closed.rand s.0))
          (λ s d h. closed.then w s.0 _ h (closed.wait d s.0))
          (λ s h. closed.then w s.0 _ h (closed.record_entry row s.0 may)) (w, tt) (closed.same w)

    after_upload-Related :
        (out : EntryOutcome) (entry : EntryInfo) (err : Option Error)
        → Moves Rel (after_upload p msg out entry idx err)
    unfolding after_upload uploaded_row record_failed_entry failed_row record_once
    after_upload-Related out entry (some e) =
        option_intro {A = M S EntryResult} (Moves Rel) (is_bomb_defence e)
          (λ w. closed.record_entry _ w writes) (λ bde. reject_bomb-Related out bde.rule bde.reason)
    after_upload-Related out entry none =
        λ w. closed.then _ _ _ (record_with_retries-Related _ writes w) (after_record-Related _ _ _)

    after_peeked-Related :
        (out : EntryOutcome) (entry : EntryInfo) (peeked : Try (Text × Stream R))
        → Moves Rel (after_peeked p msg out entry idx peeked)
    unfolding after_peeked
    after_peeked-Related out entry (fail e) =
        option_intro {A = M S EntryResult} (Moves Rel) (is_bomb_defence e) (λ w. closed.same w)
          (λ bde. reject_bomb-Related out bde.rule bde.reason)
    after_peeked-Related out entry (ok (peek, stream)) = λ w.
        let out1 = record out {
          mime_type = detect_mime p msg peek out.safe_name;
          child_key = build_child_key msg.pipeline_execution_id idx out.safe_name;
        } in
        closed.then _ _ _ (upload_with_retries-Related out1 entry stream w)
          (after_upload-Related out1 entry _ _)

    after_open-Related :
        (out : EntryOutcome) (entry : EntryInfo) (opened : Try R)
        → Moves Rel (after_open p msg out entry idx opened)
    unfolding after_open
    after_open-Related out entry (fail e) = λ w. closed.same w
    after_open-Related out entry (ok r) = after_peeked-Related out entry _

    after_check-Related :
        (out : EntryOutcome) (file : ZipFile R) (err : Option Error)
        → Moves Rel (after_check p msg out idx file err)
    unfolding after_check
    after_check-Related out file (some e) =
        option_intro {A = M S EntryResult} (Moves Rel) (is_bomb_defence e)
          (abort_plain-Related out e) (λ bde. reject_bomb-Related out bde.rule bde.reason)
    after_check-Related out file none = after_open-Related out (entry_info file) file.opened

    after_sanitize-Related :
        (out : EntryOutcome) (file : ZipFile R) (name : Try Text)
        → Moves Rel (after_sanitize p msg out idx file name)
    unfolding after_sanitize record_failed_entry failed_row record_once
    after_sanitize-Related out file (fail e) =
        option_intro {A = M S EntryResult} (Moves Rel) (is_path_validation e)
          (abort_plain-Related out e)
          (λ pve w. closed.then _ _ _ (closed.counted _ w) (closed.record_entry _ _ writes))
    after_sanitize-Related out file (ok name) = after_check-Related _ file _

    pub process_entry-Related : (file : ZipFile R) → Moves Rel (process_entry p msg idx file)
    unfolding process_entry
    process_entry-Related file w =
        closed.then _ _ _ (closed.now w) (after_sanitize-Related _ file _ _)
