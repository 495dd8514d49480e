-- ===== src/DynamoDb.antt =====
-- services/zip-extraction/internal/dynamodb/adapter.go: the row of an entry. An item is a list of
-- named attributes. `format` and `parse` are time's, with the layout RFC3339Nano; `put_item` is
-- DynamoDB's PutItem with the condition attribute_not_exists(pk).
pub mod RoundTrip
pub mod Idempotence
pub mod Table
pub mod Calls
pub mod Samples
mod Tests
use zip_extraction.Common.{
  ℕ, Bool, true, false, ◌||◌, Option, none, some, List, [], ◌∷◌, ◌++◌, if◌then◌else◌, is_empty,
}
use zip_extraction.Common.Int.{ℤ, pos}
use zip_extraction.Go.Strings.{Text, text, str_eq}
use zip_extraction.Go.Fmt.{signed_decimal, scan_int64}
use zip_extraction.Extraction.Errors.{Error, plain, wrap, Try, ok, fail, find, as_foreign, is_some}
use zip_extraction.Extraction.Types.{PipelineFile, Time}
use zip_extraction.Retry.{as_transient}

-- AttributeValueMemberS and AttributeValueMemberN
pub data AttributeValue : Type 0 where
  string number : Text → AttributeValue

abbrev pub Item : Type 0
Item = List (Text × AttributeValue)

unfoldable pub lookup : Item → Text → Option AttributeValue
lookup [] k = none
lookup ((name, v) ∷ rest) k = if str_eq name k then some v else lookup rest k

-- errors.As to *ConditionalCheckFailedException
unfoldable pub is_conditional_check : Error → Bool
is_conditional_check e =
    is_some (find (as_foreign (λ f. if f.conditional_check then some (tt {0}) else none)) e)

-- an attribute that is left out where it is empty
optional : Text → Text → Item
optional name value = if is_empty value then [] else (name, string value) ∷ []

string_of : Option AttributeValue → Text
string_of (some (string s)) = s
string_of _ = []

unfoldable pub get_string : Item → Text → Text
unfolding lookup string_of
get_string item k = string_of (lookup item k)

number_of : Option AttributeValue → Option ℤ
number_of (some (number s)) = scan_int64 s
number_of _ = none

-- none is an error
unfoldable pub parse_int64 : Item → Text → Option ℤ
unfolding lookup number_of
parse_int64 item k = number_of (lookup item k)

or_zero : Option ℤ → ℤ
or_zero none = pos 0
or_zero (some n) = n

module _ (parse : Text → Option Time) (zero_time : Time) where
  or_zero_time : Option Time → Time
  or_zero_time none = zero_time
  or_zero_time (some t) = t

  unfoldable pub unmarshal : Item → Try PipelineFile
  unfolding get_string parse_int64 or_zero or_zero_time
  unmarshal av =
      let s = get_string av (text "recordedAt") in
      let rec : PipelineFile = record {
        pk = get_string av (text "pk");
        sk = get_string av (text "sk");
        document_id = get_string av (text "documentId");
        source_archive = get_string av (text "sourceArchive");
        child_key = get_string av (text "childKey");
        mime_type = get_string av (text "mimeType");
        status = get_string av (text "status");
        size_bytes = or_zero (parse_int64 av (text "sizeBytes"));
        failure_reason = get_string av (text "failureReason");
        failure_detail = get_string av (text "failureDetail");
        recorded_at = if is_empty s then zero_time else or_zero_time (parse s);
      } in
      if is_empty rec.pk || is_empty rec.sk
      then fail (plain (text "dynamodb: unmarshal missing pk/sk"))
      else ok rec

module _ (format : Time → Text) where
  unfoldable pub item_of : PipelineFile → Item
  unfolding optional
  item_of rec =
      ((text "pk", string rec.pk)
        ∷ (text "sk", string rec.sk)
        ∷ (text "documentId", string rec.document_id)
        ∷ (text "sourceArchive", string rec.source_archive)
        ∷ (text "childKey", string rec.child_key)
        ∷ (text "mimeType", string rec.mime_type)
        ∷ (text "status", string rec.status)
        ∷ (text "sizeBytes", number (signed_decimal rec.size_bytes))
        ∷ (text "recordedAt", string (format rec.recorded_at))
        ∷ [])
      ++ (optional (text "failureReason") rec.failure_reason
          ++ optional (text "failureDetail") rec.failure_detail)

  unfoldable pub marshal : PipelineFile → Try Item
  unfolding item_of
  marshal rec =
      if is_empty rec.pk || is_empty rec.sk
      then fail (plain (text "dynamodb: marshal requires non-empty PK and SK"))
      else ok (item_of rec)

  -- The state is that outside the adapter; `on_skip` is the callback at a re-delivery.
  module _ (quote : Text → Text) {S : Type 0} (put_item : Item → S → Option Error × S)
      (on_skip : S → S) (table : Text) where
    put_prefix : PipelineFile → Text
    put_prefix rec =
        text "dynamodb: putItem "
        ++ (table ++ (text " pk=" ++ (rec.pk ++ (text " sk=" ++ (rec.sk ++ text ": ")))))

    after_put : PipelineFile → Option Error × S → Option Error × S
    unfolding is_conditional_check put_prefix
    after_put rec (none, s) = (none, s)
    after_put rec (some e, s) =
        if is_conditional_check e
        then (none, on_skip s)
        else (as_transient quote (some (wrap (put_prefix rec) e)), s)

    put_marshalled : PipelineFile → Try Item → S → Option Error × S
    unfolding after_put
    put_marshalled rec (fail e) s = (some e, s)
    put_marshalled rec (ok item) s = after_put rec (put_item item s)

    unfoldable pub record_entry : PipelineFile → S → Option Error × S
    unfolding put_marshalled marshal
    record_entry rec s = put_marshalled rec (marshal rec) s
