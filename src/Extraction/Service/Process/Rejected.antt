-- ===== src/Extraction/Service/Process/Rejected.antt =====
-- An archive whose metadata is beyond the limits.
use zip_extraction.Common.{ℕ, ◌≡◌, refl, List, [], ◌∷◌, some}
use zip_extraction.Extraction.Errors.{BombDefenceError, bomb, ok, is_bomb_defence, find}
use zip_extraction.Extraction.Types.{ClaimCheck, ArchiveMetadata, Time, Outcome, failed}
use zip_extraction.Extraction.Describe.{rule_reason}
use zip_extraction.Extraction.ZipOpen.{ZipFile}
use zip_extraction.BombDefence.{pre_check}
use zip_extraction.BombDefence.Limits.{IsWithin, pre_check-rejects}
use zip_extraction.Extraction.Service.Effects.{
  Event, extraction_failure, bomb_rejection, metric, World, Ports,
}
use zip_extraction.Extraction.Service.Process.{
  ArchiveState, leave, reject_archive, archive_check, after_archive_check, after_open_zip,
}

-- The archive failed for the rule, with no entry, and the metrics are all that was called.
pub record IsRefused {S : Type 0} (rule : ℕ) (before : List Event)
    (result : (Outcome × ArchiveState) × World S) : Type 0 where
  pub status : result.0.0.status ≡ failed
  pub reason : result.0.0.reason ≡ rule_reason rule
  pub entries : result.0.1.entries ≡ []
  pub calls :
      result.1.events
      ≡ metric (extraction_failure (rule_reason rule)) ∷ metric (bomb_rejection rule) ∷ before

module _ {S B R : Type 0} (p : Ports S B R) (msg : ClaimCheck) where
  -- An archive that could be opened and that breaks rule 1, 4 or 12 fails for the rule that the
  -- pre-check gives, whatever its entries are: none of them is processed, and nothing is called but
  -- the metrics.
  pub after_open_zip-IsRefused :
      (start : Time) (files : List (ZipFile R)) (meta : ArchiveMetadata) (w : World S)
      → ¬ IsWithin p.bomb_config meta
      → (bde : BombDefenceError) × ((pre_check p.bomb_config meta ≡ some (bomb bde))
          × IsRefused bde.rule w.events (after_open_zip p msg start (ok (files, meta)) w))
  unfolding after_open_zip archive_check after_archive_check reject_archive leave is_bomb_defence
      find
  after_open_zip-IsRefused start files meta w beyond =
      let (bde, rejected) = pre_check-rejects p.bomb_config meta beyond in
      (
        bde,
        (
          rejected,
          rw (after_open_zip, archive_check, rejected)
              (record { status = refl; reason = refl; entries = refl; calls = refl }),
        ),
      )
