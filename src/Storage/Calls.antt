-- ===== src/Storage/Calls.antt =====
-- What the adapter of S3 leaves outside: that which the SDK's call does.
use zip_extraction.Common.{◌≡◌, refl, Option, none, some}
use zip_extraction.Common.Int.{ℤ}
use zip_extraction.Go.Strings.{Text}
use zip_extraction.Extraction.Errors.{Error, Try, ok, fail}
use zip_extraction.Storage.{
  StorageConfig, PutObjectInput, put_object_input, upload, upload_answer, download, download_answer,
}

module _ {S : Type 0} (quote : Text → Text) where
  upload_answer-state :
      {R : Type 0} (bucket key : Text) (answer : Option Error × (R × S))
      → (upload_answer quote bucket key answer).1.1 ≡ answer.1.1
  unfolding upload_answer
  upload_answer-state bucket key (none, a) = refl
  upload_answer-state bucket key (some e, a) = refl

  pub upload-state :
      {R : Type 0} (uploader : PutObjectInput R → S → Option Error × (R × S)) (cfg : StorageConfig)
      (bucket key : Text) (body : R) (size : ℤ) (mime : Text) (s : S)
      → (upload quote uploader cfg bucket key body size mime s).1.1
        ≡ (uploader (put_object_input cfg bucket key body mime) s).1.1
  unfolding upload
  upload-state uploader cfg bucket key body size mime s = upload_answer-state bucket key _

  download_answer-state :
      {B : Type 0} (bucket key : Text) (answer : Try (B × Option ℤ) × S)
      → (download_answer quote bucket key answer).1 ≡ answer.1
  unfolding download_answer
  download_answer-state bucket key (fail e, s) = refl
  download_answer-state bucket key (ok (body, length), s) = refl

  pub download-state :
      {B : Type 0} (get_object : Text → Text → S → Try (B × Option ℤ) × S) (bucket key : Text)
      (s : S)
      → (download quote get_object bucket key s).1 ≡ (get_object bucket key s).1
  unfolding download
  download-state get_object bucket key s = download_answer-state bucket key _
