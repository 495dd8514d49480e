-- ===== src/Storage.antt =====
-- services/zip-extraction/internal/storage: S3 (adapter.go) and the media type of an entry (mime.go).
-- `get_object` and `uploader` are the SDK's, over a state `S`; `B` is a body that is read, `R` one
-- that is written. `Br` is a bufio.Reader.
pub mod Calls
pub mod Laws
mod Tests
use zip_extraction.Common.{
  Bool, Option, none, some, List, [], ◌∷◌, ◌++◌, if◌then◌else◌, not, ◌&&◌, is_empty,
}
use zip_extraction.Common.Int.{ℤ, pos}
use zip_extraction.Go.Strings.{Text, text, str_eq, to_lower}
use zip_extraction.Go.Path.{ext}
use zip_extraction.Extraction.Errors.{Error, wrap, eof, Try, ok, fail}
use zip_extraction.Retry.{as_transient}

pub record StorageConfig : Type 0 where
  pub multipart_threshold_bytes : ℤ
  pub sse_mode : Text
  pub sse_kms_key_id : Text

-- the fields of s3.PutObjectInput that are set; none is nil
pub record PutObjectInput (R : Type 0) : Type 0 where
  pub bucket : Text
  pub key : Text
  pub body : R
  pub content_type : Option Text
  pub server_side_encryption : Option Text
  pub sse_kms_key_id : Option Text

abbrev pub aes256 : Text
aes256 = text "AES256"

abbrev pub aws_kms : Text
aws_kms = text "aws:kms"

unless_empty : Text → Option Text
unless_empty s = if is_empty s then none else some s

unfoldable pub encryption : StorageConfig → Option Text
encryption cfg =
    if str_eq cfg.sse_mode (text "SSE-S3")
    then some aes256
    else if str_eq cfg.sse_mode (text "SSE-KMS")
    then some aws_kms
    else none

unfoldable pub put_object_input :
    {R : Type 0} → StorageConfig → Text → Text → R → Text → PutObjectInput R
unfolding unless_empty encryption
put_object_input cfg bucket key body content_type = record {
  bucket = bucket;
  key = key;
  body = body;
  content_type = unless_empty content_type;
  server_side_encryption = encryption cfg;
  sse_kms_key_id =
      if str_eq cfg.sse_mode (text "SSE-KMS") then unless_empty cfg.sse_kms_key_id else none;
}

module _ (quote : Text → Text) where
  -- retry.AsTransient(fmt.Errorf("<operation> <bucket>/<key>: %w", err))
  unfoldable pub storage_error : Text → Text → Text → Error → Option Error
  storage_error operation bucket key e =
      as_transient quote (some (wrap (operation ++ (bucket ++ (text "/" ++ (key ++ text ": ")))) e))

  upload_answer : {A : Type 0} → Text → Text → Option Error × A → Option Error × A
  unfolding storage_error
  upload_answer bucket key (none, a) = (none, a)
  upload_answer bucket key (some e, a) = (storage_error (text "storage: upload ") bucket key e, a)

  -- Upload; what the uploader leaves of the body is part of its answer
  unfoldable pub upload :
      {S R : Type 0}
      → (PutObjectInput R → S → Option Error × (R × S))
      → StorageConfig
      → Text
      → Text
      → R
      → ℤ
      → Text
      → S
      → Option Error × (R × S)
  unfolding upload_answer put_object_input
  upload uploader cfg bucket key body size_hint content_type s =
      upload_answer bucket key (uploader (put_object_input cfg bucket key body content_type) s)

  or_zero : Option ℤ → ℤ
  or_zero none = pos 0
  or_zero (some n) = n

  failed_with : {A : Type 0} → Option Error → Error → Try A
  failed_with none e = fail e
  failed_with (some e') e = fail e'

  download_answer : {S B : Type 0} → Text → Text → Try (B × Option ℤ) × S → Try (B × ℤ) × S
  unfolding storage_error or_zero failed_with
  download_answer bucket key (fail e, s) =
      (failed_with (storage_error (text "storage: getObject ") bucket key e) e, s)
  download_answer bucket key (ok (body, length), s) = (ok (body, or_zero length), s)

  -- Download; an answer without a length has the size 0
  unfoldable pub download :
      {S B : Type 0}
      → (Text → Text → S → Try (B × Option ℤ) × S)
      → Text
      → Text
      → S
      → Try (B × ℤ) × S
  unfolding download_answer
  download get_object bucket key s = download_answer bucket key (get_object bucket key s)

-- DetectMIME, for http.DetectContentType and mime.TypeByExtension
module _ (sniff mime_by_extension : Text → Text) where
  by_type : Text → Text → Text
  by_type sniffed t = if is_empty t then sniffed else t

  by_extension : Text → Text → Text
  unfolding by_type
  by_extension sniffed e =
      if is_empty e then sniffed else by_type sniffed (mime_by_extension (to_lower e))

  unfoldable pub detect_mime : Text → Text → Text
  unfolding by_extension
  detect_mime peek file_name =
      if str_eq (sniff peek) (text "application/octet-stream")
      then by_extension (sniff peek) (ext file_name)
      else sniff peek

-- package bufio: NewReaderSize, the method Peek, and the comparison with ErrBufferFull
pub record Bufio (R Br : Type 0) : Type 0 where
  pub new_reader_size : R → ℤ → Br
  pub peek : Br → ℤ → (Text × Option Error) × Br
  pub is_buffer_full : Error → Bool

pub record PeekedReader (Br : Type 0) : Type 0 where
  pub peek : Text
  pub rebuilt : Br

module _ {R Br : Type 0} (b : Bufio R Br) where
  peek_answer : (Text × Option Error) × Br → Try (PeekedReader Br)
  peek_answer ((bytes, none), br) = ok (record { peek = bytes; rebuilt = br })
  peek_answer ((bytes, some eof), br) = ok (record { peek = bytes; rebuilt = br })
  peek_answer ((bytes, some e), br) =
      if b.is_buffer_full e then ok (record { peek = bytes; rebuilt = br }) else fail e

  -- Peek
  unfoldable pub peek : R → ℤ → Try (PeekedReader Br)
  unfolding peek_answer
  peek r n = peek_answer (b.peek (b.new_reader_size r n) n)
