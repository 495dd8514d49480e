-- ===== src/DynamoDb/Tests.antt =====
-- The theorems at concrete rows, with a table that keeps the first item at a key.
use zip_extraction.Common.{◌≡◌, ◌⊎◌, refl, Option, none, some, [], ◌∷◌, arith}
use zip_extraction.Common.Int.{pos, negsuc}
use zip_extraction.Go.Strings.{Text, text}
use zip_extraction.Extraction.Errors.{ok}
use zip_extraction.Extraction.Types.{PipelineFile, Time, entry_status_uploaded, entry_status_failed}
use zip_extraction.DynamoDb.{Item, item_of, marshal, unmarshal, record_entry}
use zip_extraction.DynamoDb.Samples.{Table, put_item, put_item-IsTable, empty_table}
use zip_extraction.DynamoDb.RoundTrip.{unmarshal-marshal}
use zip_extraction.DynamoDb.Idempotence.{FailsOtherwise, record_entry-first_stays}

abbrev row : PipelineFile
row = record {
  pk = text "PIPELINE#e1";
  sk = text "FILE#0001";
  document_id = text "d1";
  source_archive = text "k.zip";
  child_key = text "input/e1/0001-a.txt";
  mime_type = text "text/plain";
  status = entry_status_uploaded;
  size_bytes = pos 12;
  failure_reason = [];
  failure_detail = [];
  recorded_at = pos 5;
}

abbrev print_time : Time → Text
print_time t = elim t [ pos n ↦ n ∷ [] | negsuc n ↦ 0 ∷ n ∷ [] ]

abbrev read_time : Text → Option Time
read_time (n ∷ []) = some (pos n)
read_time (_ ∷ n ∷ []) = some (negsuc n)
read_time _ = none

unmarshal-marshal_example :
    (item : Item) × ((marshal print_time row ≡ ok item)
      × (unmarshal read_time (pos 0) item ≡ ok row))
unfolding text
unmarshal-marshal_example =
    unmarshal-marshal print_time read_time (pos 0) row refl refl (omega arith) refl refl

abbrev again : PipelineFile
again = record row { status = entry_status_failed; child_key = [] }

abbrev recorded : Table
recorded = (record_entry print_time (λ s. s) put_item (λ s. s) (text "files") row empty_table).1

record_entry-first_stays_example :
    (recorded (row.pk, row.sk) ≡ some (item_of print_time row))
    × (((record_entry print_time (λ s. s) put_item (λ s. s) (text "files") again recorded).1
            (row.pk, row.sk)
          ≡ some (item_of print_time row))
        × (((record_entry print_time (λ s. s) put_item (λ s. s) (text "files") again recorded).0
              ≡ none)
            ⊎ FailsOtherwise put_item (item_of print_time again) recorded))
unfolding text record_entry zip_extraction.DynamoDb.Samples.put_at
record_entry-first_stays_example =
    record_entry-first_stays print_time (λ s. s) put_item (λ s. s) (text "files") (λ s key. s key)
      put_item-IsTable (λ s key. refl) row again empty_table refl refl refl refl refl refl
