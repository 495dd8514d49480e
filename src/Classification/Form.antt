-- ===== src/Classification/Form.antt =====
-- services/zip-extraction/internal/classification/classification.go: the request and its multipart
-- form.
use zip_extraction.Common.{
  Bool, ◌||◌, not, Option, none, some, List, [], ◌∷◌, ◌++◌, if◌then◌else◌, is_empty,
}
use zip_extraction.Common.Int.{ℤ, pos, gtb_ℤ}
use zip_extraction.Go.Strings.{Text, text, str_eq, trim_prefix}
use zip_extraction.Go.Fmt.{signed_decimal}
use zip_extraction.Go.Path.{dot, base, ext}

-- none is a nil body
pub record Request (B : Type 0) : Type 0 where
  pub workspace_id : Text
  pub filename : Text
  pub content_type : Text
  pub parent_archive_depth : ℤ
  pub body : Option B

unfoldable pub base_name : Text → Text
base_name p =
    if is_empty p
    then text "child"
    else if is_empty (base p) || (str_eq (base p) dot || str_eq (base p) (text "/"))
    then text "child"
    else base p

unfoldable pub extension_hint : Text → Text
extension_hint p = if is_empty (ext p) then [] else trim_prefix (ext p) dot

-- a part of a multipart form; only a file has a name
pub record Part : Type 0 where
  pub field_name : Text
  pub file_name : Option Text
  pub content : Text

field : Text → Text → Part
field name value = record { field_name = name; file_name = none; content = value }

when : Bool → Part → List Part
when b part = if b then part ∷ [] else []

unfoldable pub form : {B : Type 0} → Request B → Text → List Part
unfolding base_name extension_hint field when
form req content =
    record {
      field_name = text "file";
      file_name = some (base_name req.filename);
      content = content;
    }
    ∷ field (text "workspaceId") req.workspace_id
    ∷ (when (not (is_empty (extension_hint req.filename)))
          (field (text "extension") (extension_hint req.filename))
        ++ (when (not (is_empty req.content_type)) (field (text "contentType") req.content_type)
            ++ when (gtb_ℤ req.parent_archive_depth (pos 0))
                (field (text "parentArchiveDepth") (signed_decimal req.parent_archive_depth))))
