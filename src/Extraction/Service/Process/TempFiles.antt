-- ===== src/Extraction/Service/Process/TempFiles.antt =====
-- The temporary files while a message is processed: Process leaves none (BR-CLEAN).
use zip_extraction.Common.{◌≡◌, ◌∙◌, refl, Option, none, some, List, ◌∷◌}
use zip_extraction.Common.Int.{ℤ}
use zip_extraction.Go.Strings.{Text}
use zip_extraction.Extraction.Errors.{Error, Try, ok, fail}
use zip_extraction.Extraction.Types.{ClaimCheck, Time}
use zip_extraction.Extraction.ZipOpen.{open_zip}
use zip_extraction.Extraction.ZipOpen.Spill.{IsFileSystem, Spilled, spill_to_temp-Spilled}
use zip_extraction.Extraction.Service.Effects.{SlipsheetCall, slipsheet_call, World, Ports, M}
use zip_extraction.Extraction.Service.Relations.{in_state, IsClosed, Moves}
use zip_extraction.Extraction.Service.Process.Related.{after_open_zip-Related}
use zip_extraction.Extraction.Service.Process.{
  ArchiveState, failure_of, slipsheet_of, write_slipsheet, leave, after_spill, after_download,
  process,
}

-- What the calls of the service do to the temporary files: only the file system changes them.
pub record KeepsFiles {S B R : Type 0} (p : Ports S B R) (files : S → List Text) : Type 0 where
  pub file_system : IsFileSystem p.create_temp p.copy p.remove files
  pub write_slipsheet :
      (call : SlipsheetCall) (s : S) → files (p.write_slipsheet call s).1 ≡ files s
  pub others : IsClosed p (λ keys. Unit {0}) (λ before after. files after.env ≡ files before.env)

module _ {S B R : Type 0} (p : Ports S B R) (files : S → List Text) (keeps : KeepsFiles p files)
    (msg : ClaimCheck) where
  abbrev SameFiles : World S → World S → Type 0
  SameFiles before after = files after.env ≡ files before.env

  abbrev Keeps : {A : Type 0} → M S A → Type 0
  Keeps = Moves SameFiles

  -- the file of the archive is there until the archive is done with
  after_spill-gone :
      (start : Time) (size : ℤ) (name : Try Text) (w : World S) (before : List Text)
      → Spilled p.create_temp p.copy p.remove files before name (files w.env)
      → files (after_spill p msg start size name w).1.env ≡ before
  unfolding after_spill leave Spilled
  after_spill-gone start size (fail e) w before h = keeps.others.now w ∙ h
  after_spill-gone start size (ok name) w before h = keeps.file_system.remove_latest name before _ (
      after_open_zip-Related p (λ keys. Unit {0}) SameFiles keeps.others msg (λ idx. tt) start
        (open_zip (p.temp_file name w.env) size) w
      ∙ h)

  after_download-Keeps : (start : Time) (got : Try (B × ℤ)) → Keeps (after_download p msg start got)
  unfolding after_download leave
  after_download-Keeps start (fail e) w = keeps.others.now w
  after_download-Keeps start (ok (body, size)) w = after_spill-gone start size _ _ (files w.env) (
      spill_to_temp-Spilled p.create_temp p.copy p.remove files keeps.file_system body
        msg.pipeline_execution_id w.env)

  failure_of-Keeps : (err : Option Error) → Keeps (failure_of p msg err)
  unfolding failure_of
  failure_of-Keeps none w = refl
  failure_of-Keeps (some e) w = refl

  write_slipsheet-Keeps :
      (start : Time) (st : ArchiveState) → Keeps (write_slipsheet p msg start st)
  unfolding write_slipsheet
  write_slipsheet-Keeps start st w =
      let call = slipsheet_of p msg st in
      let (err, env) = p.write_slipsheet call w.env in
      keeps.others.now
        (failure_of p msg err (record { env = env; events = slipsheet_call call err ∷ w.events })).1
      ∙ failure_of-Keeps _ _
      ∙ keeps.write_slipsheet _ w.env

  -- Whatever the calls of Process answer, the temporary files that there are when it returns are
  -- those that there were before it, where os.CreateTemp adds one exactly when it succeeds, os.Remove
  -- takes away the latest one where it has that name, and the other calls keep them.
  pub process-leaves_no_file : (w : World S) → files (process p msg w).1.env ≡ files w.env
  unfolding process
  process-leaves_no_file w =
      let (start, env) = p.now w.env in
      let (got, env1) = p.download msg.source_bucket msg.source_key env in
      let w1 = record w { env = env1 } in
      let ((outcome, st), w2) = after_download p msg start got w1 in
      write_slipsheet-Keeps start st w2
      ∙ after_download-Keeps start got w1
      ∙ keeps.others.download msg.source_bucket msg.source_key (in_state w env)
      ∙ keeps.others.now w
