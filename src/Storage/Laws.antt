-- ===== src/Storage/Laws.antt =====
-- What the adapter's errors keep, and the media type that two packages detect.
use zip_extraction.Common.{
  ◌≡◌, ◌∙◌, refl, ap, Bool, true, false, not, Option, none, some, ◌++◌, inl, arith, is_empty,
  if◌then◌else◌,
}
use zip_extraction.Common.Int.{ℤ}
use zip_extraction.Go.Strings.{Text, text, str_eq, to_lower}
use zip_extraction.Go.Path.{ext}
use zip_extraction.Extraction.Errors.{Error, wrap, BombDefenceError, is_bomb_defence, find}
use zip_extraction.Extraction.Types.{ClaimCheck}
use zip_extraction.Extraction.Service.Effects.{Ports}
use zip_extraction.Extraction.Service.Rows
use zip_extraction.Retry.{as_transient, classify, is_retryable}
use zip_extraction.Retry.Classes.{is_retryable_final}
use zip_extraction.Storage.{
  PutObjectInput, StorageConfig, put_object_input, storage_error, upload, upload_answer,
  detect_mime, by_extension, by_type,
}

is_bomb_defence-wrap :
    (prefix : Text) (e : Error) → is_bomb_defence (wrap prefix e) ≡ is_bomb_defence e
unfolding is_bomb_defence find
is_bomb_defence-wrap prefix e = refl

classify-bomb :
    (quote : Text → Text) (e : Error) (bde : BombDefenceError)
    → is_bomb_defence e ≡ some bde
    → classify quote e ≡ none
unfolding classify
classify-bomb quote e bde h = rw h refl

module _ (quote : Text → Text) where
  -- the error keeps the bomb-defence error, and is not wrapped as a transient one
  storage_error-bomb :
      (operation bucket key : Text) (e : Error) (bde : BombDefenceError)
      → is_bomb_defence e ≡ some bde
      → (e' : Error) × ((storage_error quote operation bucket key e ≡ some e')
          × (is_bomb_defence e' ≡ some bde))
  unfolding storage_error as_transient
  storage_error-bomb operation bucket key e bde h =
      let prefix = operation ++ (bucket ++ (text "/" ++ (key ++ text ": "))) in
      let wrapped = is_bomb_defence-wrap prefix e ∙ h in
      (wrap prefix e, (rw (classify-bomb quote (wrap prefix e) bde wrapped) refl, wrapped))

  upload_answer-bomb :
      {A : Type 0} (bucket key : Text) (answer : Option Error × A) (e : Error)
      (bde : BombDefenceError)
      → answer.0 ≡ some e
      → is_bomb_defence e ≡ some bde
      → (e' : Error) × (((upload_answer quote bucket key answer).0 ≡ some e')
          × (is_bomb_defence e' ≡ some bde))
  unfolding upload_answer
  upload_answer-bomb bucket key (none, a) e bde h k = absurd (ground arith)
  upload_answer-bomb bucket key (some x, a) e bde h k =
      storage_error-bomb (text "storage: upload ") bucket key x bde (same x e h k)
    where
      same :
          (x e : Error)
          → some x ≡ some e
          → is_bomb_defence e ≡ some bde
          → is_bomb_defence x ≡ some bde
      same x e h k = cc

  -- A rejection by the reader of an entry during its upload, if the uploader's error has it in its
  -- chain, is in the chain of the error of Upload too, which is not retried.
  pub upload-bomb :
      {S R : Type 0} (uploader : PutObjectInput R → S → Option Error × (R × S))
      (cfg : StorageConfig) (bucket key : Text) (body : R) (size : ℤ) (content_type : Text) (s : S)
      (e : Error) (bde : BombDefenceError)
      → (uploader (put_object_input cfg bucket key body content_type) s).0 ≡ some e
      → is_bomb_defence e ≡ some bde
      → (e' : Error) × (((upload quote uploader cfg bucket key body size content_type s).0
            ≡ some e')
          × ((is_bomb_defence e' ≡ some bde) × (is_retryable quote e' ≡ false)))
  unfolding upload
  upload-bomb uploader cfg bucket key body size content_type s e bde h k =
      let (e', (answer, found)) = upload_answer-bomb bucket key _ e bde h k in
      (e', (answer, (found, is_retryable_final quote e' (inl (rw found refl)))))

not_if : {A : Type 0} (b : Bool) (x y : A) → (if not b then x else y) ≡ (if b then y else x)
not_if true x y = refl
not_if false x y = refl

-- The service's own detection of the media type is that of the storage package.
pub detect_mime-lockstep :
    {S B R : Type 0} (p : Ports S B R) (msg : ClaimCheck) (peek file_name : Text)
    → Rows.detect_mime p msg peek file_name ≡ detect_mime p.sniff p.mime_by_extension peek file_name
unfolding Rows.detect_mime detect_mime by_extension by_type
detect_mime-lockstep p msg peek file_name =
    not_if (str_eq (p.sniff peek) (text "application/octet-stream")) _ _
    ∙ ap (λ m. if str_eq (p.sniff peek) (text "application/octet-stream") then m else p.sniff peek)
        (not_if (is_empty (ext file_name)) _ _
          ∙ ap (λ m. if is_empty (ext file_name) then p.sniff peek else m)
              (not_if (is_empty (p.mime_by_extension (to_lower (ext file_name)))) _ _))
