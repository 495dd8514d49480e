-- ===== src/DynamoDb/RoundTrip.antt =====
-- What is recorded is read back.
use zip_extraction.Common.{◌≡◌, refl, false, Option, some, [], ◌∷◌, is_empty}
use zip_extraction.Common.Int.{InInt64}
use zip_extraction.Go.Strings.{Text, text, str_eq}
use zip_extraction.Go.Fmt.Laws.{scan_int64-signed_decimal}
use zip_extraction.Extraction.Errors.{ok}
use zip_extraction.Extraction.Types.{PipelineFile, Time}
use zip_extraction.DynamoDb.{Item, item_of, optional, marshal, unmarshal, or_zero, or_zero_time}

module _ (format : Time → Text) (parse : Text → Option Time) (zero_time : Time) where
  unmarshal-item_of :
      (rec : PipelineFile) (reason detail : Text)
      → is_empty rec.pk ≡ false
      → is_empty rec.sk ≡ false
      → InInt64 rec.size_bytes
      → is_empty (format rec.recorded_at) ≡ false
      → parse (format rec.recorded_at) ≡ some rec.recorded_at
      → unmarshal parse zero_time
          (item_of format (record rec { failure_reason = reason; failure_detail = detail }))
        ≡ ok (record rec { failure_reason = reason; failure_detail = detail })
  unfolding unmarshal item_of optional text str_eq or_zero or_zero_time
  unmarshal-item_of rec [] [] p s n f t =
      rw (scan_int64-signed_decimal rec.size_bytes n, f, t, p, s) refl
  unmarshal-item_of rec [] (x ∷ d) p s n f t =
      rw (scan_int64-signed_decimal rec.size_bytes n, f, t, p, s) refl
  unmarshal-item_of rec (x ∷ r) [] p s n f t =
      rw (scan_int64-signed_decimal rec.size_bytes n, f, t, p, s) refl
  unmarshal-item_of rec (x ∷ r) (y ∷ d) p s n f t =
      rw (scan_int64-signed_decimal rec.size_bytes n, f, t, p, s) refl

  -- A row with both keys, whose size is an int64 and whose time is printed as a text that is read back,
  -- is made an item, and the item is read back as the row.
  pub unmarshal-marshal :
      (rec : PipelineFile)
      → is_empty rec.pk ≡ false
      → is_empty rec.sk ≡ false
      → InInt64 rec.size_bytes
      → is_empty (format rec.recorded_at) ≡ false
      → parse (format rec.recorded_at) ≡ some rec.recorded_at
      → (item : Item) × ((marshal format rec ≡ ok item) × (unmarshal parse zero_time item ≡ ok rec))
  unfolding marshal
  unmarshal-marshal rec p s n f t = (
    item_of format rec,
    (rw (p, s) refl, unmarshal-item_of rec rec.failure_reason rec.failure_detail p s n f t),
  )
