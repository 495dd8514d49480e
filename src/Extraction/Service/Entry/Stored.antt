-- ===== src/Extraction/Service/Entry/Stored.antt =====
-- The row that an entry leaves in the table.
use zip_extraction.Common.{
  ℕ, ◌≡◌, ◌≢◌, refl, sym, ap, ◌∙◌, ◌⊎◌, inl, inr, true, Option, none, some, ◌∷◌, arith, if_intro,
}
use zip_extraction.Common.Int.{ℤ}
use zip_extraction.Go.Strings.{Text}
use zip_extraction.Extraction.Errors.{Try, ok, fail, is_some}
use zip_extraction.Extraction.Types.{
  ClaimCheck, EntryInfo, EntryOutcome, Classification, PipelineFile, entry_status_uploaded,
}
use zip_extraction.Extraction.ZipOpen.{ZipFile}
use zip_extraction.Retry.Success.{do_retry-Succeeds}
use zip_extraction.Extraction.Service.Effects.{
  ClassifyRequest, World, Stream, Ports, M, bytes_extracted, metric, retry_env,
}
use zip_extraction.Extraction.Service.RowTable.{SameItems, IsRowTable}
use zip_extraction.Extraction.Service.Relations.{IsClosed}
use zip_extraction.Extraction.Service.Rows.{record_once}
use zip_extraction.Extraction.Service.Classify.{
  classify_hop, classify_child, classify_body, classified,
}
use zip_extraction.Extraction.Service.Entry.{
  record_op, record_with_retries, uploaded_row, upload_with_retries, process_entry,
}
use zip_extraction.Extraction.Service.Entry.Calls.{keys_at}
use zip_extraction.Extraction.Service.Entry.Related.{
  classify_hop-Related, upload_with_retries-Related, process_entry-Related,
}
use zip_extraction.Extraction.Service.Entry.Success.{sized, AfterUpload, process_entry-IsUploaded}

module _ {S B R I : Type 0} (p : Ports S B R) (stored : S → Text × Text → Option I)
    (item_of : PipelineFile → I) (table : IsRowTable p stored item_of) where
  -- the item at a key other than those of an entry is as it was
  abbrev Elsewhere : Text × Text → World S → World S → Type 0
  Elsewhere own before after =
      (key : Text × Text) → key ≢ own → stored after.env key ≡ stored before.env key

  Elsewhere-IsClosed : (own : Text × Text) → IsClosed p (λ keys. keys ≡ own) (Elsewhere own)
  Elsewhere-IsClosed own =
      let calls = table.others.calls in
      record {
        same = λ w key ne. refl;
        then = λ a b c d e key ne. e key ne ∙ d key ne;
        counted = λ x w key ne. refl;
        now = λ w key ne. calls.now w key;
        rand = λ w key ne. calls.rand w key;
        wait = λ d w key ne. calls.wait d w key;
        download = λ bucket name w key ne. calls.download bucket name w key;
        upload = λ bucket name read stream size mime w key ne.
            calls.upload bucket name read stream size mime w key;
        record_entry = λ row w is key ne. table.elsewhere row w.env key (λ e. ne (e ∙ is));
        classify = λ classify is req w key ne. calls.classify classify is req w key;
      }

  pub process_entry-elsewhere :
      (msg : ClaimCheck) (idx : ℕ) (file : ZipFile R) (w : World S) (key : Text × Text)
      → key ≢ keys_at msg idx
      → stored (process_entry p msg idx file w).1.env key ≡ stored w.env key
  process_entry-elsewhere msg idx =
      process_entry-Related p (λ keys. keys ≡ keys_at msg idx) (Elsewhere (keys_at msg idx))
        (Elsewhere-IsClosed (keys_at msg idx)) msg idx refl

  -- no item at the keys of the row but its own
  abbrev Pending : PipelineFile → S → Type 0
  Pending row s =
      (stored s (row.pk, row.sk) ≡ none) ⊎ (stored s (row.pk, row.sk) ≡ some (item_of row))

  Pending-same :
      (row : PipelineFile) (s t : S)
      → stored t (row.pk, row.sk) ≡ stored s (row.pk, row.sk)
      → Pending row s
      → Pending row t
  Pending-same row s t e (inl h) = inl (e ∙ h)
  Pending-same row s t e (inr h) = inr (e ∙ h)

  record_entry-Pending :
      (row : PipelineFile) (s : S) → Pending row s → Pending row (p.record_entry row s).1
  record_entry-Pending row s h = elim (table.settled row s) [
    | inl same ↦ Pending-same row s (p.record_entry row s).1 same h
    | inr (_, put) ↦ inr put
  ]

  stored_own :
      (row : PipelineFile) (s : S)
      → Pending row s
      → (item : I) × (stored s (row.pk, row.sk) ≡ some item)
      → stored s (row.pk, row.sk) ≡ some (item_of row)
  stored_own row s (inl h) (item, there) = absurd (none_some item (sym h ∙ there))
    where
      none_some : (i : I) → none ≡ some i → ⊥
      none_some i e = ground arith
  stored_own row s (inr h) there = h

  module _ (msg : ClaimCheck)
      (ends : (d : ℤ) (s : S)
        → (p.wait d s).0 ≡ true
        → is_some (p.ctx_err (p.wait d s).1) ≡ true) where
    record_with_retries-stored :
        (row : PipelineFile) (w : World S)
        → stored w.env (row.pk, row.sk) ≡ none
        → (record_with_retries p msg row w).0 ≡ none
        → stored (record_with_retries p msg row w).1.env (row.pk, row.sk) ≡ some (item_of row)
    unfolding record_with_retries record_op record_once
    record_with_retries-stored row w fresh e =
        let ((w0, u), (pending, (done, last))) =
          do_retry-Succeeds p.quote p.float p.retry_config (retry_env (Unit {0}) p)
            (record_op p msg row) (λ s. Pending row s.0.env) (λ d s h. ends d s.0.env h)
            (λ s h. Pending-same row s.0.env _ (table.others.calls.rand s.0 _) h)
            (λ s d h. Pending-same row s.0.env _ (table.others.calls.wait d s.0 _) h)
            (λ s h. record_entry-Pending row s.0.env h) (w, tt) (inl fresh) e in
        ap (λ s. stored s.0.env (row.pk, row.sk)) last
        ∙ stored_own row (p.record_entry row w0.env).1 (record_entry-Pending row w0.env pending)
            (table.recorded row w0.env done)

    module _ (idx : ℕ) where
      -- the row of the outcome is in the table
      abbrev IsStored : EntryOutcome → World S → Type 0
      IsStored out w = stored w.env (keys_at msg idx) ≡ some (item_of (uploaded_row p msg out idx))

      abbrev SameRow : EntryOutcome → M S EntryOutcome → Type 0
      SameRow out m = (w : World S) → uploaded_row p msg (m w).0 idx ≡ uploaded_row p msg out idx

      classified-SameRow :
          (out : EntryOutcome) (res : Try (Option Classification))
          → SameRow out (classified p msg out res)
      unfolding classified uploaded_row
      classified-SameRow out (fail e) w = refl
      classified-SameRow out (ok none) w = refl
      classified-SameRow out (ok (some c)) w = refl

      classify_body-SameRow :
          (classify : ClassifyRequest B → S → Try (Option Classification) × S) (workspace : Text)
          (out : EntryOutcome) (body : Try (B × ℤ))
          → SameRow out (classify_body p msg classify workspace out body)
      unfolding classify_body
      classify_body-SameRow classify workspace out (fail e) w = refl
      classify_body-SameRow classify workspace out (ok (body, size)) w = classified-SameRow out _ _

      classify_hop-SameRow :
          (classify : Option (ClassifyRequest B → S → Try (Option Classification) × S))
          (out : EntryOutcome)
          → SameRow out (classify_hop p msg classify out)
      unfolding classify_hop classify_child
      classify_hop-SameRow none out w = refl
      classify_hop-SameRow (some classify) out w =
          if_intro {A = M S EntryOutcome} (SameRow out) _ (λ w1. refl)
            (λ w1. classify_body-SameRow classify _ out _ _) w

      -- The row is put where there is none, and the classification leaves it.
      uploaded-IsStored :
          (out : EntryOutcome) (entry : EntryInfo) (stream : Stream R) (w : World S)
          → stored w.env (keys_at msg idx) ≡ none
          → AfterUpload p msg idx
              (λ w1. stored w1.env (keys_at msg idx) ≡ none)
              IsStored
              out
              entry
              (upload_with_retries p msg out entry stream w).1
      unfolding uploaded_row
      uploaded-IsStored out entry stream w fresh recorded =
          let out1 = sized out entry in
          let w1 = (upload_with_retries p msg out entry stream w).1 in
          let w2 = (record_with_retries p msg (uploaded_row p msg out1 idx) w1).1 in
          let counted = record w2 {
            events = metric (bytes_extracted out1.size_bytes) ∷ w2.events;
          } in
          let same =
            upload_with_retries-Related p (λ keys. ⊥) (SameItems stored) table.others.calls msg out
              entry stream w (keys_at msg idx) in
          let kept =
            classify_hop-Related p (λ keys. ⊥) (SameItems stored) table.others.calls msg
              p.classifier refl out1 counted (keys_at msg idx) in
          kept
          ∙ record_with_retries-stored (uploaded_row p msg out1 idx) w1 (same ∙ fresh) recorded
          ∙ ap (λ row. some (item_of row)) (sym (classify_hop-SameRow p.classifier out1 counted))

      pub process_entry-stored :
          (file : ZipFile R) (w : World S)
          → stored w.env (keys_at msg idx) ≡ none
          → (process_entry p msg idx file w).0.out.status ≡ entry_status_uploaded
          → stored (process_entry p msg idx file w).1.env (keys_at msg idx)
            ≡ some (item_of (uploaded_row p msg (process_entry p msg idx file w).0.out idx))
      process_entry-stored file w fresh =
          process_entry-IsUploaded p msg idx (λ w1. stored w1.env (keys_at msg idx) ≡ none) IsStored
            (λ w1 h. table.others.calls.now w1 (keys_at msg idx) ∙ h)
            (λ out entry stream w1 h up. uploaded-IsStored out entry stream w1 h) file w fresh
