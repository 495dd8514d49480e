-- ===== src/DynamoDb/Samples.antt =====
-- A table that keeps the first item at a key, for the tests.
use zip_extraction.Common.{
  ◌≡◌, ◌≢◌, refl, sym, ap, ◌∙◌, Bool-cases, inl, inr, Bool, true, false, ◌&&◌, Option, none, some,
  arith, if◌then◌else◌,
}
use zip_extraction.Common.Int.{pos}
use zip_extraction.Go.Strings.{Text, text, str_eq}
use zip_extraction.Go.Strings.Laws.{str_eq_refl, eq_of_str_eq}
use zip_extraction.Extraction.Errors.{Error, foreign}
use zip_extraction.DynamoDb.{Item}
use zip_extraction.DynamoDb.Table.{IsTable, Settles, key_of}

abbrev pub Table : Type 0
Table = Text × Text → Option Item

abbrev key_eq : Text × Text → Text × Text → Bool
key_eq a b = str_eq a.0 b.0 && str_eq a.1 b.1

abbrev pub condition_failed : Error
condition_failed = foreign (record {
  message = text "ConditionalCheckFailedException";
  api_code = some (text "ConditionalCheckFailedException");
  http_status = some (pos 400);
  deadline = false;
  canceled = false;
  net_op = false;
  url_temporary = none;
  conditional_check = true;
})

unfoldable pub put_at : Item → Table → Option Item → Option Error × Table
put_at item s none = (none, λ key. if key_eq (key_of item) key then some item else s key)
put_at item s (some old) = (some condition_failed, s)

abbrev pub put_item : Item → Table → Option Error × Table
put_item item s = put_at item s (s (key_of item))

abbrev pub empty_table : Table
empty_table key = none

key_eq_sound : (a b : Text × Text) → key_eq a b ≡ true → a ≡ b
key_eq_sound (a, b) (c, d) h =
    let first : str_eq a c ≡ true = ground arith in
    let second : str_eq b d ≡ true = ground arith in
    ap (λ x. (x, b)) (eq_of_str_eq a c first) ∙ ap (λ y. (c, y)) (eq_of_str_eq b d second)

put_at-elsewhere :
    (item : Item) (s : Table) (there : Option Item) (key : Text × Text)
    → key ≢ key_of item
    → (put_at item s there).1 key ≡ s key
unfolding put_at
put_at-elsewhere item s (some old) key ne = refl
put_at-elsewhere item s none key ne = elim (Bool-cases (key_eq (key_of item) key)) [
  | inl c ↦ absurd (ne (sym (key_eq_sound (key_of item) key c)))
  | inr c ↦ rw c refl
]

put_at-Settles :
    (item : Item) (s : Table) (there : Option Item)
    → s (key_of item) ≡ there
    → Settles (λ t key. t key) item (key_of item) s (put_at item s there).1
unfolding put_at
put_at-Settles item s none h =
    inr (h, rw (str_eq_refl (key_of item).0, str_eq_refl (key_of item).1) refl)
put_at-Settles item s (some old) h = inl refl

put_at-put :
    (item : Item) (s : Table) (there : Option Item)
    → (put_at item s there).0 ≡ none
    → (put_at item s there).1 (key_of item) ≡ some item
unfolding put_at
put_at-put item s none h = rw (str_eq_refl (key_of item).0, str_eq_refl (key_of item).1) refl
put_at-put item s (some x) h = absurd (ground arith)

put_at-taken :
    (item : Item) (e : Error) (s : Table) (there : Option Item)
    → s (key_of item) ≡ there
    → (put_at item s there).0 ≡ some e
    → (old : Item) × (s (key_of item) ≡ some old)
unfolding put_at
put_at-taken item e s (some x) at h = (x, at)
put_at-taken item e s none at h = absurd (ground arith)

pub put_item-IsTable : IsTable (λ s key. s key) put_item
put_item-IsTable = record {
  elsewhere = λ item s key ne. put_at-elsewhere item s (s (key_of item)) key ne;
  settled = λ item s. put_at-Settles item s (s (key_of item)) refl;
  put = λ item s h. put_at-put item s (s (key_of item)) h;
  taken = λ item e s h c. put_at-taken item e s (s (key_of item)) refl h;
}
