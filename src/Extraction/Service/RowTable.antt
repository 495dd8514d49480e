-- ===== src/Extraction/Service/RowTable.antt =====
-- What the service relies on of the table that RecordEntry writes to.
use zip_extraction.Common.{◌≡◌, ◌≢◌, ◌⊎◌, Option, none, some, ◌∷◌}
use zip_extraction.Go.Strings.{Text}
use zip_extraction.Extraction.Types.{PipelineFile}
use zip_extraction.Extraction.Service.Effects.{SlipsheetCall, slipsheet_call, World, Ports}
use zip_extraction.Extraction.Service.Relations.{IsClosedForArchive}

-- each item is as it was, `stored` being the item at a key
abbrev pub SameItems : {S I : Type 0} → (S → Text × Text → Option I) → World S → World S → Type 0
SameItems stored before after = (key : Text × Text) → stored after.env key ≡ stored before.env key

-- RecordEntry changes the item at the keys of its row alone, to that of the row, and only where there
-- is none; where it succeeds, there is one. Where it fails, the item may be there or not. No other call
-- changes an item.
pub record IsRowTable {S B R I : Type 0} (p : Ports S B R) (stored : S → Text × Text → Option I)
    (item_of : PipelineFile → I) : Type 0 where
  pub others : IsClosedForArchive p (λ keys. ⊥) (SameItems stored)
  pub writes_slipsheet :
      (call : SlipsheetCall) (w : World S)
      → SameItems stored w (record {
        env = (p.write_slipsheet call w.env).1;
        events = slipsheet_call call (p.write_slipsheet call w.env).0 ∷ w.events;
      })
  pub elsewhere :
      (row : PipelineFile) (s : S) (key : Text × Text)
      → key ≢ (row.pk, row.sk)
      → stored (p.record_entry row s).1 key ≡ stored s key
  pub settled :
      (row : PipelineFile) (s : S)
      → (stored (p.record_entry row s).1 (row.pk, row.sk) ≡ stored s (row.pk, row.sk))
        ⊎ ((stored s (row.pk, row.sk) ≡ none)
            × (stored (p.record_entry row s).1 (row.pk, row.sk) ≡ some (item_of row)))
  pub recorded :
      (row : PipelineFile) (s : S)
      → (p.record_entry row s).0 ≡ none
      → (item : I) × (stored (p.record_entry row s).1 (row.pk, row.sk) ≡ some item)
