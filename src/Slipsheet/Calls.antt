-- ===== src/Slipsheet/Calls.antt =====
-- How the state after Write is related to the state before it.
use zip_extraction.Common.{◌≡◌, ◌⊎◌, refl, inl, inr, List, length}
use zip_extraction.Common.Int.{ℤ, pos}
use zip_extraction.Go.Strings.{Text, text}
use zip_extraction.Extraction.Errors.{Error, Try, ok, fail}
use zip_extraction.Extraction.Types.{Status, EntryOutcome, Time}
use zip_extraction.Slipsheet.{
  Slipsheet, ChildEntry, Upload, Writer, build, marshal, slipsheet_key, write, upload_document,
}

-- A preorder on the states that has the clock and the upload has Write.
module _ {S : Type 0} (Rel : S → S → Type 0) (same : (s : S) → Rel s s)
    (then : (a b c : S) → Rel a b → Rel b c → Rel a c) (upload : Upload S) (w : Writer)
    (uploads : (bucket key body : Text) (size : ℤ) (mime : Text) (s : S)
      → Rel s (upload bucket key body size mime s).1) where
  upload_document-Related :
      (exec_id : Text) (body : Try Text) (s : S) → Rel s (upload_document upload w exec_id body s).1
  unfolding upload_document
  upload_document-Related exec_id (fail e) s = same s
  upload_document-Related exec_id (ok b) s = uploads _ _ b _ _ s

  pub write-Related :
      (encode : Slipsheet → Try Text) (sort : List ChildEntry → List ChildEntry)
      (now : S → Time × S)
      → ((s : S) → Rel s (now s).1)
      → (exec_id source_archive : Text) (status : Status) (entries : List EntryOutcome)
        (reason detail : Text) (s : S)
      → Rel s
          (write upload w encode sort now exec_id source_archive status entries reason detail s).1
  unfolding write
  write-Related encode sort now ticks exec_id source_archive status entries reason detail s =
      then _ _ _ (ticks s) (upload_document-Related exec_id _ (now s).1)

module _ {S : Type 0} (upload : Upload S) (w : Writer) (encode : Slipsheet → Try Text) where
  -- The state comes of an upload of the document, or it is `s`, where the document cannot be encoded.
  abbrev pub Uploads : Slipsheet → S → S → Type 0
  Uploads doc s t =
      ((b : Text) × ((encode doc ≡ ok b)
          × (t
              ≡ (upload w.bucket (slipsheet_key w doc.pipeline_execution_id) b (pos (length b))
                  (text "application/json") s).1)))
      ⊎ ((e : Error) × ((encode doc ≡ fail e) × (t ≡ s)))

  upload_document-Uploads :
      (doc : Slipsheet) (encoded : Try Text) (s : S)
      → encode doc ≡ encoded
      → Uploads doc s
          (upload_document upload w doc.pipeline_execution_id (marshal (λ d. encoded) doc) s).1
  unfolding upload_document marshal
  upload_document-Uploads doc (fail e) s is = inr (e, (is, refl))
  upload_document-Uploads doc (ok b) s is = inl (b, (is, refl))

  pub write-Uploads :
      (sort : List ChildEntry → List ChildEntry) (now : S → Time × S)
      (exec_id source_archive : Text) (status : Status) (entries : List EntryOutcome)
      (reason detail : Text) (s : S)
      → Uploads
          (build sort exec_id source_archive status entries reason detail (now s).0)
          (now s).1
          (write upload w encode sort now exec_id source_archive status entries reason detail s).1
  unfolding write build marshal
  write-Uploads sort now exec_id source_archive status entries reason detail s =
      let doc = build sort exec_id source_archive status entries reason detail (now s).0 in
      upload_document-Uploads doc (encode doc) (now s).1 refl
