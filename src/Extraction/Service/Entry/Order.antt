-- ===== src/Extraction/Service/Entry/Order.antt =====
-- The order of the calls for an entry that is uploaded.
use zip_extraction.Common.{ℕ, ◌≡◌, refl, true, none, List, ◌∷◌}
use zip_extraction.Common.Int.{ℤ}
use zip_extraction.Go.Strings.{Text}
use zip_extraction.Extraction.Errors.{is_some}
use zip_extraction.Extraction.Types.{ClaimCheck, EntryInfo, EntryOutcome, entry_status_uploaded}
use zip_extraction.Extraction.ZipOpen.{ZipFile}
use zip_extraction.Extraction.Service.Effects.{Event, metric, bytes_extracted, World, Stream, Ports}
use zip_extraction.Extraction.Service.Entry.{
  process_entry, uploaded_row, record_with_retries, upload_with_retries,
}
use zip_extraction.Extraction.Service.Entry.Success.{sized, AfterUpload, process_entry-IsUploaded}
use zip_extraction.Extraction.Service.Entry.Calls.{
  keys_at, RecordedAfterUpload, RecordedAfterUpload-cons, record_with_retries-Recorded,
  upload_with_retries-Uploaded, classify_hop-Keeps,
}

module _ {S B R : Type 0} (p : Ports S B R) (msg : ClaimCheck)
    (ends : (d : ℤ) (s : S)
      → (p.wait d s).0 ≡ true
      → is_some (p.ctx_err (p.wait d s).1) ≡ true) where
  -- the row of an entry that has been uploaded is recorded, and the classification leaves it
  uploaded-InOrder :
      (idx : ℕ) (out : EntryOutcome) (entry : EntryInfo) (stream : Stream R) (w : World S)
      → (upload_with_retries p msg out entry stream w).0 ≡ none
      → AfterUpload p msg idx
          (λ w1. Unit {0})
          (λ out1 w1. RecordedAfterUpload (keys_at msg idx) out1.child_key w1.events)
          out
          entry
          (upload_with_retries p msg out entry stream w).1
  unfolding uploaded_row
  uploaded-InOrder idx out entry stream w up recorded =
      let out1 = sized out entry in
      let w1 = (upload_with_retries p msg out entry stream w).1 in
      let w2 = (record_with_retries p msg (uploaded_row p msg out1 idx) w1).1 in
      let counted = record w2 { events = metric (bytes_extracted out1.size_bytes) ∷ w2.events } in
      let (key, kept) = classify_hop-Keeps p msg ends (keys_at msg idx) p.classifier out1 counted (
        RecordedAfterUpload-cons (keys_at msg idx) out1.child_key
          (metric (bytes_extracted out1.size_bytes)) w2.events
          (record_with_retries-Recorded p msg ends (uploaded_row p msg out1 idx) w1
            (upload_with_retries-Uploaded p msg ends out entry stream w up) refl recorded)) in
      of_key _ _ _ key kept
    where
      of_key :
          (k key : Text) (events : List Event)
          → k ≡ key
          → RecordedAfterUpload (keys_at msg idx) key events
          → RecordedAfterUpload (keys_at msg idx) k events
      of_key k key events e h = rw e h

  -- Where a context that ended a wait has an error: an entry whose outcome says UPLOADED has been
  -- uploaded to its child key by a call that succeeded, and a row with the keys of the entry, with that
  -- child key and with that status has been recorded after it by a call that succeeded.
  pub process_entry-in_order :
      (idx : ℕ) (file : ZipFile R) (w : World S)
      → (process_entry p msg idx file w).0.out.status ≡ entry_status_uploaded
      → RecordedAfterUpload
          (keys_at msg idx)
          (process_entry p msg idx file w).0.out.child_key
          (process_entry p msg idx file w).1.events
  process_entry-in_order idx file w =
      process_entry-IsUploaded p msg idx (λ w1. Unit {0})
        (λ out w1. RecordedAfterUpload (keys_at msg idx) out.child_key w1.events) (λ w1 h. tt)
        (λ out entry stream w1 h. uploaded-InOrder idx out entry stream w1) file w tt
