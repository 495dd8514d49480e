-- ===== src/Slipsheet.antt =====
-- services/zip-extraction/internal/slipsheet/slipsheet.go: the document on an archive. `encode` is
-- json.Marshal of the document, `decode` json.Unmarshal, `sort_by_index` sort.Slice by the entries' indices.
pub mod Calls
pub mod Laws
use zip_extraction.Common.{
  ℕ, Option, none, some, List, [], ◌∷◌, ◌++◌, if◌then◌else◌, map, length, is_empty,
}
use zip_extraction.Common.Int.{ℤ, pos}
use zip_extraction.Go.Strings.{Text, text}
use zip_extraction.Extraction.Errors.{Error, wrap, Try, ok, fail}
use zip_extraction.Extraction.Types.{Status, status_string, Time, EntryOutcome, Classification}

pub record ChildEntry : Type 0 where
  pub entry_index : ℕ
  pub child_key : Text
  pub status : Text
  pub failure_reason : Text
  pub failure_detail : Text
  pub size_bytes : ℤ
  pub classification : Option Classification

pub record Slipsheet : Type 0 where
  pub type : Text
  pub pipeline_execution_id : Text
  pub source_archive : Text
  pub child_count : ℕ
  pub status : Text
  pub failure_reason : Text
  pub failure_detail : Text
  pub written_at : Time
  pub children : List ChildEntry

abbrev pub slipsheet_type : Text
slipsheet_type = text "archive-container"

unfoldable pub child_entry : EntryOutcome → ChildEntry
child_entry e = record {
  entry_index = e.index;
  child_key = e.child_key;
  status = e.status;
  failure_reason = e.failure_reason;
  failure_detail = e.failure_detail;
  size_bytes = e.size_bytes;
  classification = e.classification;
}

-- A Time is a moment, so that its location plays no part.
unfoldable pub build :
    (List ChildEntry → List ChildEntry)
    → Text
    → Text
    → Status
    → List EntryOutcome
    → Text
    → Text
    → Time
    → Slipsheet
unfolding child_entry status_string
build sort_by_index exec_id source_archive status entries reason detail now =
    let children = sort_by_index (map child_entry entries) in
    record {
      type = slipsheet_type;
      pipeline_execution_id = exec_id;
      source_archive = source_archive;
      child_count = length children;
      status = status_string status;
      failure_reason = reason;
      failure_detail = detail;
      written_at = now;
      children = children;
    }

pub record Writer : Type 0 where
  pub bucket : Text
  pub prefix : Text

unfoldable pub new_writer : Text → Text → Writer
new_writer bucket prefix = record {
  bucket = bucket;
  prefix = if is_empty prefix then text "slipsheets/" else prefix;
}

unfoldable pub slipsheet_key : Writer → Text → Text
slipsheet_key w exec_id = w.prefix ++ (exec_id ++ text ".json")

unfoldable pub marshal : (Slipsheet → Try Text) → Slipsheet → Try Text
marshal encode ss = elim (encode ss) [
  | fail e ↦ fail (wrap (text "slipsheet: marshal: ") e)
  | ok b ↦ ok b
]

unfoldable pub unmarshal : (Text → Try Slipsheet) → Text → Try Slipsheet
unmarshal decode b = elim (decode b) [
  | fail e ↦ fail (wrap (text "slipsheet: unmarshal: ") e)
  | ok ss ↦ ok ss
]

-- Uploader.Upload of a body in memory, over a state `S`
abbrev pub Upload : Type 0 → Type 0
Upload S = Text → Text → Text → ℤ → Text → S → Option Error × S

module _ {S : Type 0} (upload : Upload S) (w : Writer) where
  upload_document : Text → Try Text → S → Option Error × S
  unfolding slipsheet_key
  upload_document exec_id (fail e) s = (some e, s)
  upload_document exec_id (ok b) s =
      upload w.bucket (slipsheet_key w exec_id) b (pos (length b)) (text "application/json") s

  -- Write
  unfoldable pub write :
      (Slipsheet → Try Text)
      → (List ChildEntry → List ChildEntry)
      → (S → Time × S)
      → Text
      → Text
      → Status
      → List EntryOutcome
      → Text
      → Text
      → S
      → Option Error × S
  unfolding upload_document build marshal
  write encode sort_by_index now exec_id source_archive status entries reason detail s =
      let (t, s1) = now s in
      let ss = build sort_by_index exec_id source_archive status entries reason detail t in
      upload_document exec_id (marshal encode ss) s1
