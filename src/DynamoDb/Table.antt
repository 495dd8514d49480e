-- ===== src/DynamoDb/Table.antt =====
-- The table that RecordEntry writes to.
use mathlib.Core.Path.{subst}
use zip_extraction.Common.{
  is_empty, ◌||◌, ◌≡◌, ◌≢◌, ◌⊎◌, inl, inr, arith, refl, ap, sym, ◌∙◌, true, Option, none, some,
  Bool-cases,
}
use zip_extraction.Go.Strings.{Text, text, str_eq}
use zip_extraction.Extraction.Errors.{Error, plain}
use zip_extraction.Extraction.Types.{PipelineFile, Time}
use zip_extraction.Retry.{as_transient}
use zip_extraction.DynamoDb.{
  Item, get_string, item_of, marshal, record_entry, put_marshalled, after_put, is_conditional_check,
}

-- the keys of the table
unfoldable pub key_of : Item → Text × Text
key_of item = (get_string item (text "pk"), get_string item (text "sk"))

-- What an operation on an item may do to the item at its key: put it where there is none.
abbrev pub Settles :
    {S : Type 0} → (S → Text × Text → Option Item) → Item → Text × Text → S → S → Type 0
Settles stored item key s t =
    (stored t key ≡ stored s key) ⊎ ((stored s key ≡ none) × (stored t key ≡ some item))

-- PutItem with attribute_not_exists(pk), `stored` being the item at a key. Whatever it answers, it
-- changes no other item, and none that there is. Where it succeeds, the item is there, and where the
-- condition fails, there was one. Any other error leaves open whether the item is there.
pub record IsTable {S : Type 0} (stored : S → Text × Text → Option Item)
    (put_item : Item → S → Option Error × S) : Type 0 where
  pub elsewhere :
      (item : Item) (s : S) (key : Text × Text)
      → key ≢ key_of item
      → stored (put_item item s).1 key ≡ stored s key
  pub settled : (item : Item) (s : S) → Settles stored item (key_of item) s (put_item item s).1
  pub put :
      (item : Item) (s : S)
      → (put_item item s).0 ≡ none
      → stored (put_item item s).1 (key_of item) ≡ some item
  pub taken :
      (item : Item) (e : Error) (s : S)
      → (put_item item s).0 ≡ some e
      → is_conditional_check e ≡ true
      → (old : Item) × (stored s (key_of item) ≡ some old)

module _ (format : Time → Text) (quote : Text → Text) {S : Type 0}
    (put_item : Item → S → Option Error × S) (on_skip : S → S) (table : Text)
    (stored : S → Text × Text → Option Item) (is_table : IsTable stored put_item)
    (skips : (s : S) (key : Text × Text) → stored (on_skip s) key ≡ stored s key) where
  -- an answer changes no item
  after_put-same :
      (rec : PipelineFile) (put : Option Error × S) (key : Text × Text)
      → stored (after_put format quote put_item on_skip table rec put).1 key ≡ stored put.1 key
  unfolding after_put
  after_put-same rec (none, s) key = refl
  after_put-same rec (some e, s) key = elim (Bool-cases (is_conditional_check e)) [
    | inl c ↦ rw c (skips s key)
    | inr c ↦ rw c refl
  ]

  -- RecordEntry puts the item of the row, or it fails and does nothing.
  record_entry-puts :
      (rec : PipelineFile) (s : S)
      → ((e : Error) × (record_entry format quote put_item on_skip table rec s ≡ (some e, s)))
        ⊎ (record_entry format quote put_item on_skip table rec s
            ≡ after_put format quote put_item on_skip table rec (put_item (item_of format rec) s))
  unfolding record_entry put_marshalled marshal
  record_entry-puts rec s = elim (Bool-cases (is_empty rec.pk || is_empty rec.sk)) [
    | inl missing ↦
        inl (plain (text "dynamodb: marshal requires non-empty PK and SK"), rw missing refl)
    | inr there ↦ inr (rw there refl)
  ]

  own_key : (rec : PipelineFile) → key_of (item_of format rec) ≡ (rec.pk, rec.sk)
  unfolding key_of item_of text str_eq get_string
  own_key rec = refl

  -- RecordEntry leaves the items at other keys.
  pub record_entry-elsewhere :
      (rec : PipelineFile) (s : S) (key : Text × Text)
      → key ≢ (rec.pk, rec.sk)
      → stored (record_entry format quote put_item on_skip table rec s).1 key ≡ stored s key
  record_entry-elsewhere rec s key ne = elim (record_entry-puts rec s) [
    | inl (e, fails) ↦ ap (λ x. stored x.1 key) fails
    | inr puts ↦
        ap (λ x. stored x.1 key) puts
        ∙ after_put-same rec (put_item (item_of format rec) s) key
        ∙ is_table.elsewhere (item_of format rec) s key (λ e. ne (e ∙ own_key rec))
  ]

  -- At the keys of its row RecordEntry puts the item of the row, where there is none, or leaves it.
  pub record_entry-Settles :
      (rec : PipelineFile) (s : S)
      → Settles stored
          (item_of format rec)
          (rec.pk, rec.sk)
          s
          (record_entry format quote put_item on_skip table rec s).1
  record_entry-Settles rec s = elim (record_entry-puts rec s) [
    | inl (e, fails) ↦ inl (ap (λ x. stored x.1 (rec.pk, rec.sk)) fails)
    | inr puts ↦
        let item = item_of format rec in
        let after =
          ap (λ x. stored x.1 (rec.pk, rec.sk)) puts
          ∙ after_put-same rec (put_item item s) (rec.pk, rec.sk) in
        let put =
          subst (λ key. Settles stored item key s (put_item item s).1) (own_key rec)
            (is_table.settled item s) in
        Settles-same item (rec.pk, rec.sk) s (put_item item s).1 _ after put
  ]
    where
      Settles-same :
          (item : Item) (key : Text × Text) (s t u : S)
          → stored u key ≡ stored t key
          → Settles stored item key s t
          → Settles stored item key s u
      Settles-same item key s t u e (inl h) = inl (e ∙ h)
      Settles-same item key s t u e (inr (h, put)) = inr (h, e ∙ put)

  -- the error of a failed put is not nil
  as_transient-some : (e : Error) → as_transient quote (some e) ≡ none → ⊥
  unfolding as_transient
  as_transient-some e h = absurd (ground arith)

  after_put-stored :
      (rec : PipelineFile) (item : Item) (s : S) (put : Option Error × S)
      → put_item item s ≡ put
      → (after_put format quote put_item on_skip table rec put).0 ≡ none
      → (i : Item) × (stored put.1 (key_of item) ≡ some i)
  unfolding after_put
  after_put-stored rec item s (none, t) e h =
      (item, ap (λ x. stored x.1 (key_of item)) (sym e) ∙ is_table.put item s (ap (λ x. x.0) e))
  after_put-stored rec item s (some err, t) e h = elim (Bool-cases (is_conditional_check err)) [
    | inl c ↦
        let (old, there) = is_table.taken item err s (ap (λ x. x.0) e) c in
        let now = ap (λ x. stored x.1 (key_of item)) (sym e) in
        elim (is_table.settled item s) [
          | inl same ↦ (old, now ∙ same ∙ there)
          | inr (_, put) ↦ (item, now ∙ put)
        ]
    | inr c ↦ absurd (as_transient-some _ (rw c at h))
  ]

  -- Where RecordEntry succeeds, there is an item at the keys of the row.
  pub record_entry-stored :
      (rec : PipelineFile) (s : S)
      → (record_entry format quote put_item on_skip table rec s).0 ≡ none
      → (item : Item) × (stored
            (record_entry format quote put_item on_skip table rec s).1
            (rec.pk, rec.sk)
          ≡ some item)
  record_entry-stored rec s h = elim (record_entry-puts rec s) [
    | inl (e, fails) ↦ absurd (some_none e (sym (ap (λ x. x.0) fails) ∙ h))
    | inr puts ↦
        let item = item_of format rec in
        let (i, there) =
          after_put-stored rec item s (put_item item s) refl (sym (ap (λ x. x.0) puts) ∙ h) in
        (
          i,
          ap (λ x. stored x.1 (rec.pk, rec.sk)) puts
              ∙ after_put-same rec (put_item item s) (rec.pk, rec.sk)
              ∙ subst (λ key. stored (put_item item s).1 key ≡ some i) (own_key rec) there,
        )
  ]
    where
      some_none : (e : Error) → some e ≡ none → ⊥
      some_none e h = ground arith
