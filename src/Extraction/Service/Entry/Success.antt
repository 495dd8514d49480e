-- ===== src/Extraction/Service/Entry/Success.antt =====
-- An entry that is uploaded: it has come to the end of processEntry.
use zip_extraction.Common.{ℕ, ◌≡◌, refl, sym, ◌∙◌, Option, none, some, ◌∷◌, option_intro}
use zip_extraction.Go.Strings.{Text}
use zip_extraction.Extraction.Errors.{Error, Try, ok, fail, is_bomb_defence, is_path_validation}
use zip_extraction.Extraction.Types.{
  ClaimCheck, EntryInfo, EntryOutcome, entry_status_uploaded, entry_status_failed,
}
use zip_extraction.Extraction.ZipOpen.{ZipFile}
use zip_extraction.Extraction.Service.{entry_info, build_child_key}
use zip_extraction.Extraction.Service.Effects.{metric, bytes_extracted, World, Stream, Ports, M}
use zip_extraction.Extraction.Service.Relations.{in_state}
use zip_extraction.Extraction.Service.Classify.{classify_hop}
use zip_extraction.Validation.{sanitize}
use zip_extraction.Extraction.Service.Rows.{
  EntryResult, detect_mime, new_outcome, record_failed_entry, reject_bomb,
}
use zip_extraction.Extraction.Service.Entry.{
  after_record, after_upload, after_peeked, after_open, abort_plain, after_check, after_sanitize,
  process_entry, uploaded_row, record_with_retries, upload_with_retries, sanitized,
}
use zip_extraction.Extraction.Service.Entry.Calls.{failed_not_uploaded}

-- the outcome of an entry when it has been uploaded
abbrev pub sized : EntryOutcome → EntryInfo → EntryOutcome
sized out entry = record out {
  status = entry_status_uploaded;
  size_bytes = entry.uncompressed_size;
}

-- `Before` holds before an entry is uploaded, and `After` of its outcome and the world at the end.
module _ {S B R : Type 0} (p : Ports S B R) (msg : ClaimCheck) (idx : ℕ) (Before : World S → Type 0)
    (After : EntryOutcome → World S → Type 0) where
  -- the stages after the row has been recorded, the optional classification being the last
  abbrev pub AfterHop : EntryOutcome → World S → Type 0
  AfterHop out w =
      let counted = record w { events = metric (bytes_extracted out.size_bytes) ∷ w.events } in
      let ended = classify_hop p msg p.classifier out counted in After ended.0 ended.1

  abbrev pub AfterUpload : EntryOutcome → EntryInfo → World S → Type 0
  AfterUpload out entry w =
      let recorded = record_with_retries p msg (uploaded_row p msg (sized out entry) idx) w in
      recorded.0 ≡ none → AfterHop (sized out entry) recorded.1

  module _ (reads_clock : (w : World S) → Before w → Before (in_state w (p.now w.env).1))
      (success : (out : EntryOutcome) (entry : EntryInfo) (stream : Stream R) (w : World S)
        → Before w
        → (upload_with_retries p msg out entry stream w).0 ≡ none
        → AfterUpload out entry (upload_with_retries p msg out entry stream w).1) where
    -- what is shown of an uploaded entry
    abbrev IsUploaded : EntryResult × World S → Type 0
    IsUploaded (res, w) = res.out.status ≡ entry_status_uploaded → After res.out w

    abbrev AllUploaded : M S EntryResult → Type 0
    AllUploaded m = (w : World S) → IsUploaded (m w)

    after_record-IsUploaded :
        (out : EntryOutcome) (err : Option Error) (w : World S)
        → (err ≡ none → AfterHop out w)
        → IsUploaded (after_record p msg out idx err w)
    unfolding after_record record_failed_entry
    after_record-IsUploaded out (some e) w h = λ s. failed_not_uploaded s
    after_record-IsUploaded out none w h = λ _. h refl

    reject_bomb-IsUploaded :
        (out : EntryOutcome) (rule : ℕ) (reason : Text) (w : World S)
        → out.status ≡ entry_status_failed
        → IsUploaded (reject_bomb p msg out idx rule reason w)
    unfolding reject_bomb record_failed_entry
    reject_bomb-IsUploaded out rule reason w s = λ u. failed_not_uploaded (sym s ∙ u)

    after_upload-IsUploaded :
        (out : EntryOutcome) (entry : EntryInfo) (err : Option Error) (w : World S)
        → out.status ≡ entry_status_failed
        → (err ≡ none → AfterUpload out entry w)
        → IsUploaded (after_upload p msg out entry idx err w)
    unfolding after_upload record_failed_entry
    after_upload-IsUploaded out entry (some e) w s h =
        option_intro {A = M S EntryResult} AllUploaded (is_bomb_defence e)
          (λ w u. failed_not_uploaded (sym s ∙ u))
          (λ bde w. reject_bomb-IsUploaded out bde.rule bde.reason w s) w
    after_upload-IsUploaded out entry none w s h =
        after_record-IsUploaded (sized out entry) _ _ (h refl)

    after_peeked-IsUploaded :
        (out : EntryOutcome) (entry : EntryInfo) (peeked : Try (Text × Stream R)) (w : World S)
        → Before w
        → out.status ≡ entry_status_failed
        → IsUploaded (after_peeked p msg out entry idx peeked w)
    unfolding after_peeked
    after_peeked-IsUploaded out entry (fail e) w b s =
        option_intro {A = M S EntryResult} AllUploaded (is_bomb_defence e)
          (λ w u. failed_not_uploaded (sym s ∙ u))
          (λ bde w. reject_bomb-IsUploaded out bde.rule bde.reason w s) w
    after_peeked-IsUploaded out entry (ok (peek, stream)) w b s =
        let out1 = record out {
          mime_type = detect_mime p msg peek out.safe_name;
          child_key = build_child_key msg.pipeline_execution_id idx out.safe_name;
        } in
        after_upload-IsUploaded out1 entry _ _ s (success out1 entry stream w b)

    after_open-IsUploaded :
        (out : EntryOutcome) (entry : EntryInfo) (opened : Try R) (w : World S)
        → Before w
        → out.status ≡ entry_status_failed
        → IsUploaded (after_open p msg out entry idx opened w)
    unfolding after_open
    after_open-IsUploaded out entry (fail e) w b s = λ u. failed_not_uploaded (sym s ∙ u)
    after_open-IsUploaded out entry (ok r) w b s = after_peeked-IsUploaded out entry _ w b s

    after_check-IsUploaded :
        (out : EntryOutcome) (file : ZipFile R) (err : Option Error) (w : World S)
        → Before w
        → out.status ≡ entry_status_failed
        → IsUploaded (after_check p msg out idx file err w)
    unfolding after_check abort_plain record_failed_entry
    after_check-IsUploaded out file (some e) w b s =
        option_intro {A = M S EntryResult} AllUploaded (is_bomb_defence e)
          (λ w u. failed_not_uploaded (sym s ∙ u))
          (λ bde w. reject_bomb-IsUploaded out bde.rule bde.reason w s) w
    after_check-IsUploaded out file none w b s =
        after_open-IsUploaded out (entry_info file) file.opened w b s

    after_sanitize-IsUploaded :
        (out : EntryOutcome) (file : ZipFile R) (name : Try Text) (w : World S)
        → Before w
        → out.status ≡ entry_status_failed
        → IsUploaded (after_sanitize p msg out idx file name w)
    unfolding after_sanitize abort_plain record_failed_entry
    after_sanitize-IsUploaded out file (fail e) w b s =
        option_intro {A = M S EntryResult} AllUploaded (is_path_validation e)
          (λ w u. failed_not_uploaded (sym s ∙ u)) (λ pve w u. failed_not_uploaded (sym s ∙ u)) w
    after_sanitize-IsUploaded out file (ok name) w b s =
        after_check-IsUploaded (record out { safe_name = name }) file _ w b s

    pub process_entry-IsUploaded :
        (file : ZipFile R) (w : World S)
        → Before w
        → (process_entry p msg idx file w).0.out.status ≡ entry_status_uploaded
        → After (process_entry p msg idx file w).0.out (process_entry p msg idx file w).1
    unfolding process_entry new_outcome
    process_entry-IsUploaded file w before =
        after_sanitize-IsUploaded (new_outcome idx (p.now w.env).0) file
          (sanitized p msg (sanitize file.name)) (in_state w (p.now w.env).1) (reads_clock w before)
          refl
