-- ===== src/DynamoDb/Idempotence.antt =====
-- The row that is recorded first stays.
use mathlib.Core.Path.{subst}
use zip_extraction.Common.{
  ◌≡◌, ◌⊎◌, inl, inr, arith, ◌∙◌, ap, refl, false, Option, none, some, is_empty, Bool-cases,
}
use zip_extraction.Go.Strings.{Text}
use zip_extraction.Extraction.Errors.{Error}
use zip_extraction.Extraction.Types.{PipelineFile, Time}
use zip_extraction.DynamoDb.{
  Item, item_of, marshal, record_entry, put_marshalled, after_put, is_conditional_check,
}
use zip_extraction.DynamoDb.Table.{IsTable, Settles, record_entry-Settles, record_entry-stored}

-- PutItem fails with an error that is not a failed condition.
abbrev pub FailsOtherwise : {S : Type 0} → (Item → S → Option Error × S) → Item → S → Type 0
FailsOtherwise put_item item s =
    (e : Error) × (((put_item item s).0 ≡ some e) × (is_conditional_check e ≡ false))

module _ (format : Time → Text) (quote : Text → Text) {S : Type 0}
    (put_item : Item → S → Option Error × S) (on_skip : S → S) (table : Text) where
  put_nonempty :
      (rec : PipelineFile) (s : S)
      → is_empty rec.pk ≡ false
      → is_empty rec.sk ≡ false
      → record_entry format quote put_item on_skip table rec s
        ≡ after_put format quote put_item on_skip table rec (put_item (item_of format rec) s)
  unfolding record_entry put_marshalled marshal
  put_nonempty rec s p k = rw (p, k) refl

  after_put_answers :
      (rec : PipelineFile) (item : Item) (s : S) (put : Option Error × S)
      → put_item item s ≡ put
      → ((after_put format quote put_item on_skip table rec put).0 ≡ none)
        ⊎ FailsOtherwise put_item item s
  unfolding after_put
  after_put_answers rec item s (none, t) e = inl refl
  after_put_answers rec item s (some err, t) e = elim (Bool-cases (is_conditional_check err)) [
    | inl c ↦ rw c (inl refl)
    | inr c ↦ inr (err, (ap (λ x. x.0) e, c))
  ]

  module _ (stored : S → Text × Text → Option Item) (is_table : IsTable stored put_item)
      (skips : (s : S) (key : Text × Text) → stored (on_skip s) key ≡ stored s key) where
    settled_first :
        (item i : Item) (key : Text × Text) (s t : S)
        → stored s key ≡ none
        → stored t key ≡ some i
        → Settles stored item key s t
        → stored t key ≡ some item
    settled_first item i key s t fresh there (inl same) = absurd (ground arith)
    settled_first item i key s t fresh there (inr (_, put)) = put

    settled_again :
        (item old : Item) (key : Text × Text) (s t : S)
        → stored s key ≡ some old
        → Settles stored item key s t
        → stored t key ≡ some old
    settled_again item old key s t there (inl same) = same ∙ there
    settled_again item old key s t there (inr (fresh, _)) = absurd (ground arith)

    -- PutItem answers as a table does, and the callback changes no item. A row whose keys are not empty
    -- is recorded, where no item is stored at its keys, and the call succeeds; then a row with the same
    -- keys is recorded. At the keys there is the item of the first row, before the second call and after
    -- it, whatever that call answers; and the second call succeeds, unless its PutItem fails with an
    -- error that is not a failed condition.
    pub record_entry-first_stays :
        (rec again : PipelineFile) (s : S)
        → is_empty rec.pk ≡ false
        → is_empty rec.sk ≡ false
        → again.pk ≡ rec.pk
        → again.sk ≡ rec.sk
        → stored s (rec.pk, rec.sk) ≡ none
        → (record_entry format quote put_item on_skip table rec s).0 ≡ none
        → (stored (record_entry format quote put_item on_skip table rec s).1 (rec.pk, rec.sk)
            ≡ some (item_of format rec))
          × ((stored
                  (record_entry format quote put_item on_skip table again
                    (record_entry format quote put_item on_skip table rec s).1).1
                  (rec.pk, rec.sk)
                ≡ some (item_of format rec))
              × (((record_entry format quote put_item on_skip table again
                      (record_entry format quote put_item on_skip table rec s).1).0
                    ≡ none)
                  ⊎ FailsOtherwise put_item
                      (item_of format again)
                      (record_entry format quote put_item on_skip table rec s).1))
    record_entry-first_stays rec again s p k p' k' fresh done =
        let key : Text × Text = (rec.pk, rec.sk) in
        let s1 = (record_entry format quote put_item on_skip table rec s).1 in
        let (i, there) =
          record_entry-stored format quote put_item on_skip table stored is_table skips rec s
            done in
        let first =
          settled_first (item_of format rec) i key s s1 fresh there (
            record_entry-Settles format quote put_item on_skip table stored is_table skips rec s) in
        let same_key : (again.pk, again.sk) ≡ key =
          ap (λ a. (a, again.sk)) p' ∙ ap (λ b. (rec.pk, b)) k' in
        let second =
          subst
            (λ x.
              Settles stored (item_of format again) x s1
                (record_entry format quote put_item on_skip table again s1).1)
            same_key
            (record_entry-Settles format quote put_item on_skip table stored is_table skips again
              s1) in
        (
          first,
          (
            settled_again (item_of format again) (item_of format rec) key s1 _ first second,
            rw (put_nonempty again s1 (rw p' p) (rw k' k)) (
                after_put_answers again (item_of format again) s1
                  (put_item (item_of format again) s1) refl),
          ),
        )
