-- ===== src/Extraction/Service/Entry/Rejected.antt =====
-- An entry whose header is beyond the limits.
use zip_extraction.Common.{ℕ, ◌≡◌, refl, true, List, ◌∷◌, Option, some}
use zip_extraction.Go.Strings.{Text}
use zip_extraction.Extraction.Errors.{Error, BombDefenceError, bomb, is_bomb_defence, find}
use zip_extraction.Extraction.Types.{ClaimCheck, EntryOutcome, entry_status_failed}
use zip_extraction.Extraction.Describe.{rule_reason}
use zip_extraction.Extraction.ZipOpen.{ZipFile}
use zip_extraction.Validation.{safe, sanitize}
use zip_extraction.BombDefence.{entry_check}
use zip_extraction.BombDefence.Limits.{IsAcceptable, entry_check-rejects}
use zip_extraction.Extraction.Service.{entry_info}
use zip_extraction.Extraction.Service.Effects.{
  Event, bomb_rejection, record_call, metric, World, Ports,
}
use zip_extraction.Extraction.Service.Rows.{
  EntryResult, new_outcome, reject_bomb, record_failed_entry, record_once, failed_row,
}
use zip_extraction.Extraction.Service.Entry.{after_check, sanitized, after_sanitize, process_entry}

module _ {S B R : Type 0} (p : Ports S B R) (msg : ClaimCheck) where
  -- The entry failed for the rule and aborts the archive; the metric of the rule is counted, and the
  -- row of the failure is recorded, which may fail.
  pub record IsRejected (idx rule : ℕ) (before : List Event) (result : EntryResult × World S)
      : Type 0 where
    pub status : result.0.out.status ≡ entry_status_failed
    pub aborts : result.0.archive_abort ≡ true
    pub reason : result.0.reason ≡ rule_reason rule
    pub calls :
        (err : Option Error) × (result.1.events
          ≡ record_call (failed_row p msg result.0.out idx) err
            ∷ metric (bomb_rejection rule)
            ∷ before)

  pub reject_bomb-IsRejected :
      (out : EntryOutcome) (idx rule : ℕ) (reason : Text) (w : World S)
      → out.status ≡ entry_status_failed
      → IsRejected idx rule w.events (reject_bomb p msg out idx rule reason w)
  unfolding reject_bomb record_failed_entry record_once
  reject_bomb-IsRejected out idx rule reason w s = record {
    status = s;
    aborts = refl;
    reason = refl;
    calls = (_, refl);
  }

  -- An entry whose name is safe and whose header breaks rule 5, 6 or 9 fails for the rule that the
  -- check gives and aborts the archive. It is not uploaded: the only call is that of the row, after
  -- the rule is counted.
  pub process_entry-IsRejected :
      (idx : ℕ) (file : ZipFile R) (w : World S) (name : Text)
      → sanitize file.name ≡ safe name
      → ¬ IsAcceptable p.bomb_config (entry_info file)
      → (bde : BombDefenceError) × ((entry_check p.bomb_config (entry_info file) ≡ some (bomb bde))
          × IsRejected idx bde.rule w.events (process_entry p msg idx file w))
  unfolding process_entry after_sanitize sanitized after_check new_outcome is_bomb_defence find
  process_entry-IsRejected idx file w name valid beyond =
      let (bde, rejected) = entry_check-rejects p.bomb_config (entry_info file) beyond in
      (
        bde,
        (
          rejected,
          rw (valid, rejected)
              (reject_bomb-IsRejected
                (record (new_outcome idx (p.now w.env).0) { safe_name = name }) idx bde.rule
                bde.reason (record w { env = (p.now w.env).1 }) refl),
        ),
      )
