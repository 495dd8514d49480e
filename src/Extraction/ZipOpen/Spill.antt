-- ===== src/Extraction/ZipOpen/Spill.antt =====
-- The temporary file that spillToTemp makes.
use zip_extraction.Common.{◌≡◌, ◌∙◌, refl, Option, none, some, List, ◌∷◌, ◌++◌}
use zip_extraction.Go.Strings.{Text, text}
use zip_extraction.Extraction.Errors.{Error, Try, ok, fail}
use zip_extraction.Extraction.ZipOpen.{copied, spill_into, spill_to_temp}

module _ {S B : Type 0} (create_temp : Text → S → Try Text × S)
    (copy : Text → B → S → Option Error × S) (remove : Text → S → S) (files : S → List Text) where
  -- What the file system does to the temporary files that there are, the latest first: os.CreateTemp
  -- adds one where it succeeds, io.Copy keeps them, and os.Remove takes away the latest.
  pub record IsFileSystem : Type 0 where
    pub create_ok :
        (pattern name : Text) (s : S)
        → (create_temp pattern s).0 ≡ ok name
        → files (create_temp pattern s).1 ≡ name ∷ files s
    pub create_fails :
        (pattern : Text) (e : Error) (s : S)
        → (create_temp pattern s).0 ≡ fail e
        → files (create_temp pattern s).1 ≡ files s
    pub copy_keeps : (name : Text) (body : B) (s : S) → files (copy name body s).1 ≡ files s
    pub remove_latest :
        (name : Text) (others : List Text) (s : S)
        → files s ≡ name ∷ others
        → files (remove name s) ≡ others

  -- a file is there if and only if its name is the result
  unfoldable pub Spilled : List Text → Try Text → List Text → Type 0
  Spilled before (ok name) after = after ≡ name ∷ before
  Spilled before (fail e) after = after ≡ before

  module _ (fs : IsFileSystem) where
    copied-Spilled :
        (before : List Text) (name : Text) (res : Option Error × S)
        → files res.1 ≡ name ∷ before
        → Spilled before
            (copied create_temp copy remove name res).0
            (files (copied create_temp copy remove name res).1)
    unfolding copied Spilled
    copied-Spilled before name (none, s) e = e
    copied-Spilled before name (some err, s) e = fs.remove_latest name before s e

    spill_into-Spilled :
        (before : List Text) (made : Try Text × S) (body : B)
        → Spilled before made.0 (files made.1)
        → Spilled before
            (spill_into create_temp copy remove made body).0
            (files (spill_into create_temp copy remove made body).1)
    unfolding spill_into Spilled
    spill_into-Spilled before (fail e, s) body h = h
    spill_into-Spilled before (ok name, s) body h =
        copied-Spilled before name (copy name body s) (fs.copy_keeps name body s ∙ h)

    created-Spilled :
        (pattern : Text) (s : S) (made : Try Text)
        → (create_temp pattern s).0 ≡ made
        → Spilled (files s) made (files (create_temp pattern s).1)
    unfolding Spilled
    created-Spilled pattern s (ok name) e = fs.create_ok pattern name s e
    created-Spilled pattern s (fail err) e = fs.create_fails pattern err s e

    -- spillToTemp leaves the file that it returns, and none where it returns an error.
    pub spill_to_temp-Spilled :
        (body : B) (exec_id : Text) (s : S)
        → Spilled
            (files s)
            (spill_to_temp create_temp copy remove body exec_id s).0
            (files (spill_to_temp create_temp copy remove body exec_id s).1)
    unfolding spill_to_temp
    spill_to_temp-Spilled body exec_id s =
        let pattern = text "zip-extraction-" ++ (exec_id ++ text "-*.zip") in
        spill_into-Spilled (files s) (create_temp pattern s) body
          (created-Spilled pattern s (create_temp pattern s).0 refl)

-- what spillToTemp does to everything outside, for a relation that its calls keep
module _ {S B : Type 0} (create_temp : Text → S → Try Text × S)
    (copy : Text → B → S → Option Error × S) (remove : Text → S → S) (Rel : S → S → Type 0)
    (then : (a b c : S) → Rel a b → Rel b c → Rel a c)
    (creates : (pattern : Text) (s : S) → Rel s (create_temp pattern s).1)
    (copies : (name : Text) (body : B) (s : S) → Rel s (copy name body s).1)
    (removes : (name : Text) (s : S) → Rel s (remove name s)) where
  copied-Related :
      (before : S) (name : Text) (res : Option Error × S)
      → Rel before res.1
      → Rel before (copied create_temp copy remove name res).1
  unfolding copied
  copied-Related before name (none, s) h = h
  copied-Related before name (some e, s) h = then before s (remove name s) h (removes name s)

  spill_into-Related :
      (before : S) (made : Try Text × S) (body : B)
      → Rel before made.1
      → Rel before (spill_into create_temp copy remove made body).1
  unfolding spill_into
  spill_into-Related before (fail e, s) body h = h
  spill_into-Related before (ok name, s) body h =
      copied-Related before name (copy name body s)
        (then before s (copy name body s).1 h (copies name body s))

  pub spill_to_temp-Related :
      (body : B) (exec_id : Text) (s : S)
      → Rel s (spill_to_temp create_temp copy remove body exec_id s).1
  unfolding spill_to_temp
  spill_to_temp-Related body exec_id s =
      let pattern = text "zip-extraction-" ++ (exec_id ++ text "-*.zip") in
      spill_into-Related s (create_temp pattern s) body (creates pattern s)
