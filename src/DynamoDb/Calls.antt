-- ===== src/DynamoDb/Calls.antt =====
-- How the state after RecordEntry is related to the state before it.
use zip_extraction.Common.{Option, none, some, ◌||◌, Bool-cases, inl, inr, is_empty}
use zip_extraction.Go.Strings.{Text}
use zip_extraction.Extraction.Errors.{Error}
use zip_extraction.Extraction.Types.{PipelineFile, Time}
use zip_extraction.DynamoDb.{
  Item, item_of, marshal, record_entry, put_marshalled, after_put, is_conditional_check,
}

-- A preorder on the states that has PutItem and the callback has RecordEntry.
module _ {S : Type 0} (Rel : S → S → Type 0) (same : (s : S) → Rel s s)
    (then : (a b c : S) → Rel a b → Rel b c → Rel a c) (format : Time → Text) (quote : Text → Text)
    (put_item : Item → S → Option Error × S) (on_skip : S → S) (table : Text)
    (puts : (item : Item) (s : S) → Rel s (put_item item s).1)
    (skips : (s : S) → Rel s (on_skip s)) where
  after_put-Related :
      (rec : PipelineFile) (put : Option Error × S)
      → Rel put.1 (after_put format quote put_item on_skip table rec put).1
  unfolding after_put
  after_put-Related rec (none, s) = same s
  after_put-Related rec (some e, s) = elim (Bool-cases (is_conditional_check e)) [
    | inl c ↦ rw c (skips s)
    | inr c ↦ rw c (same s)
  ]

  pub record_entry-Related :
      (rec : PipelineFile) (s : S)
      → Rel s (record_entry format quote put_item on_skip table rec s).1
  unfolding record_entry put_marshalled marshal
  record_entry-Related rec s = elim (Bool-cases (is_empty rec.pk || is_empty rec.sk)) [
    | inl missing ↦ rw missing (same s)
    | inr there ↦
        let put = put_item (item_of format rec) s in
        rw there (then s put.1 _ (puts (item_of format rec) s) (after_put-Related rec put))
  ]
