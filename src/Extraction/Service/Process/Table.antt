-- ===== src/Extraction/Service/Process/Table.antt =====
-- The table of rows when a message has been processed.
use zip_extraction.Common.{
  ℕ, ◌+◌, ◌<◌, ◌≤◌, ◌≡◌, ◌≢◌, sym, ap, ◌∙◌, true, Option, none, some, List, [], ◌∷◌, ◌++◌, All,
  All-append, All-of_All, length, length-append, refl, arith,
}
use zip_extraction.Common.Int.{ℤ}
use zip_extraction.Go.Strings.{Text}
use zip_extraction.Extraction.Errors.{Error, is_some}
use zip_extraction.Extraction.Types.{ClaimCheck, EntryOutcome, PipelineFile, entry_status_uploaded}
use zip_extraction.Extraction.ZipOpen.{ZipFile}
use zip_extraction.Extraction.Service.Effects.{SlipsheetCall, Event, slipsheet_call, World, Ports}
use zip_extraction.Extraction.Service.Names.{row_injective}
use zip_extraction.Extraction.Service.RowTable.{SameItems, IsRowTable}
use zip_extraction.Extraction.Service.Entry.{process_entry, uploaded_row}
use zip_extraction.Extraction.Service.Entry.Calls.{keys_at}
use zip_extraction.Extraction.Service.Entry.Facts.{process_entry-IsResult}
use zip_extraction.Extraction.Service.Entry.Stored.{process_entry-elsewhere, process_entry-stored}
use zip_extraction.Extraction.Service.Process.{process}
use zip_extraction.Extraction.Service.Process.Listed.{IsStable, process-Listed}

-- An entry that says UPLOADED has its row in the table.
abbrev pub IsInTable :
    {S B R I : Type 0}
    → Ports S B R
    → (S → Text × Text → Option I)
    → (PipelineFile → I)
    → ClaimCheck
    → S
    → EntryOutcome
    → Type 0
IsInTable p stored item_of msg s e =
    e.status ≡ entry_status_uploaded
    → stored s (keys_at msg e.index) ≡ some (item_of (uploaded_row p msg e e.index))

-- The table `after` a message, whose slipsheet lists the entries: they are in it, there is no row for an
-- entry that the slipsheet does not list, and the items at all other keys are those `before`.
pub record IsTableOf {S B R I : Type 0} (p : Ports S B R) (stored : S → Text × Text → Option I)
    (item_of : PipelineFile → I) (msg : ClaimCheck) (entries : List EntryOutcome) (before after : S)
    : Type 0 where
  pub listed : All (IsInTable p stored item_of msg after) entries
  pub no_other : (idx : ℕ) → length entries < idx → stored after (keys_at msg idx) ≡ none
  pub elsewhere :
      (key : Text × Text)
      → ((idx : ℕ) → key ≢ keys_at msg idx)
      → stored after key ≡ stored before key

-- A slipsheet has been written, and the table is that of the entries that it lists.
abbrev pub EndsWithTable :
    {S B R I : Type 0}
    → Ports S B R
    → (S → Text × Text → Option I)
    → (PipelineFile → I)
    → ClaimCheck
    → S
    → World S
    → Type 0
EndsWithTable p stored item_of msg start end =
    (call : SlipsheetCall) × ((err : Option Error) × ((later : List Event) × ((before : List Event)
          × ((end.events ≡ later ++ (slipsheet_call call err ∷ before))
              × IsTableOf p stored item_of msg call.entries start end.env))))

module _ {S B R I : Type 0} (p : Ports S B R) (stored : S → Text × Text → Option I)
    (item_of : PipelineFile → I) (table : IsRowTable p stored item_of) (msg : ClaimCheck) where
  -- no entry after the index has a row
  abbrev Fresh : ℕ → S → Type 0
  Fresh n s = (j : ℕ) → n < j → stored s (keys_at msg j) ≡ none

  -- an entry of an index up to `n`, with its row
  abbrev Known : ℕ → S → EntryOutcome → Type 0
  Known n s e = (e.index ≤ n) × IsInTable p stored item_of msg s e

  record TableInv (start : S) (n : ℕ) (entries : List EntryOutcome) (w : World S) : Type 0 where
    count : length entries ≡ n
    fresh : Fresh n w.env
    known : All (Known n w.env) entries
    apart :
        (key : Text × Text)
        → ((idx : ℕ) → key ≢ keys_at msg idx)
        → stored w.env key ≡ stored start key

  -- the keys of other entries are other keys
  keys_at-ne : (i j : ℕ) → i < j → keys_at msg i ≢ keys_at msg j
  keys_at-ne i j h e =
      let (_, same) =
        row_injective msg.pipeline_execution_id msg.pipeline_execution_id i j (ap (λ k. k.0) e)
          (ap (λ k. k.1) e) in
      omega (arith, h, same)

  Known-later :
      (n m : ℕ) (s t : S) (e : EntryOutcome)
      → n ≤ m
      → ((i : ℕ) → i ≤ n → stored t (keys_at msg i) ≡ stored s (keys_at msg i))
      → Known n s e
      → Known m t e
  Known-later n m s t e h same (at, there) =
      (omega (arith, h, at), λ up. same e.index at ∙ there up)

  -- what an entry leaves of the entries before it
  step-Fresh :
      (n : ℕ) (file : ZipFile R) (w : World S)
      → Fresh n w.env
      → Fresh (n + 1) (process_entry p msg (n + 1) file w).1.env
  step-Fresh n file w fresh j h =
      process_entry-elsewhere p stored item_of table msg (n + 1) file w (keys_at msg j)
        (λ e. keys_at-ne (n + 1) j h (sym e))
      ∙ fresh j (omega (arith, h))

  step-Known :
      (n : ℕ) (file : ZipFile R) (w : World S) (entries : List EntryOutcome)
      → All (Known n w.env) entries
      → All (Known (n + 1) (process_entry p msg (n + 1) file w).1.env) entries
  step-Known n file w entries known =
      let t = (process_entry p msg (n + 1) file w).1.env in
      All-of_All (Known n w.env) (Known (n + 1) t)
        (λ e k.
          Known-later n (n + 1) w.env t e (omega arith)
            (λ i h.
              process_entry-elsewhere p stored item_of table msg (n + 1) file w (keys_at msg i)
                (keys_at-ne i (n + 1) (omega (arith, h))))
            k)
        entries known

  module _
      (ends : (d : ℤ) (s : S)
        → (p.wait d s).0 ≡ true
        → is_some (p.ctx_err (p.wait d s).1) ≡ true) where
    step-new :
        (n : ℕ) (file : ZipFile R) (w : World S)
        → Fresh n w.env
        → Known
            (n + 1)
            (process_entry p msg (n + 1) file w).1.env
            (process_entry p msg (n + 1) file w).0.out
    unfolding uploaded_row
    step-new n file w fresh =
        let (res, w1) = process_entry p msg (n + 1) file w in
        let ((number, _), _) = process_entry-IsResult p msg (n + 1) file w in
        known (n + 1) res.out w1.env number (
          process_entry-stored p stored item_of table msg ends (n + 1) file w
            (fresh (n + 1) (omega arith)))
      where
        known :
            (idx : ℕ) (out : EntryOutcome) (s : S)
            → out.index ≡ idx
            → (out.status ≡ entry_status_uploaded
                → stored s (keys_at msg idx) ≡ some (item_of (uploaded_row p msg out idx)))
            → Known idx s out
        known idx out s e h = rw e (omega arith, h)

    TableInv-IsStable : (start : S) → IsStable p msg (SameItems stored) (TableInv start)
    TableInv-IsStable start = record {
      closed = table.others;
      later = λ n entries before after same inv. record {
        count = inv.count;
        fresh = λ j h. same (keys_at msg j) ∙ inv.fresh j h;
        known =
            All-of_All (Known n before.env) (Known n after.env)
              (λ e k.
                Known-later n n before.env after.env e (omega arith) (λ i h. same (keys_at msg i))
                  k)
              entries inv.known;
        apart = λ key ne. same key ∙ inv.apart key ne;
      };
      step = λ n file entries w inv.
          let (res, w1) = process_entry p msg (n + 1) file w in
          record {
            count = omega (arith, length-append entries (res.out ∷ []), inv.count);
            fresh = step-Fresh n file w inv.fresh;
            known =
                All-append (Known (n + 1) w1.env) entries (res.out ∷ [])
                  (step-Known n file w entries inv.known) (step-new n file w inv.fresh, tt);
            apart = λ key ne.
                process_entry-elsewhere p stored item_of table msg (n + 1) file w key (ne (n + 1))
                ∙ inv.apart key ne;
          };
    }

    pub process-IsTableOf :
        (s : S)
        → ((idx : ℕ) → stored s (keys_at msg idx) ≡ none)
        → EndsWithTable p stored item_of msg s (process p msg (record { env = s; events = [] })).1
    process-IsTableOf s fresh =
        let start : World S = record { env = s; events = [] } in
        let (call, (err, (later, (w, (e, (same, (k, inv))))))) =
          process-Listed p msg (SameItems stored) (TableInv s) (TableInv-IsStable s)
            table.writes_slipsheet start
            (record { count = refl; fresh = λ j h. fresh j; known = tt; apart = λ key ne. refl }) in
        let end = (process p msg start).1 in
        let is_table : IsTableOf p stored item_of msg call.entries s end.env = record {
          listed =
              All-of_All (Known k w.env) (IsInTable p stored item_of msg end.env)
                (λ x (at, there) up. same (keys_at msg x.index) ∙ there up) call.entries inv.known;
          no_other = λ idx h. same (keys_at msg idx) ∙ inv.fresh idx (omega (arith, h, inv.count));
          elsewhere = λ key ne. same key ∙ inv.apart key ne;
        } in
        (call, (err, (later, (w.events, (e, is_table)))))
