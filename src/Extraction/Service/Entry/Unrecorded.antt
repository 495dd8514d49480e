-- ===== src/Extraction/Service/Entry/Unrecorded.antt =====
-- An entry that leaves no row.
use zip_extraction.Common.{◌≡◌, refl, ℕ, false, none}
use zip_extraction.Go.Strings.{Text}
use zip_extraction.Extraction.Errors.{Error, fail}
use zip_extraction.Extraction.Types.{ClaimCheck, entry_status_failed}
use zip_extraction.Extraction.ZipOpen.{ZipFile}
use zip_extraction.Validation.{safe, sanitize}
use zip_extraction.BombDefence.{entry_check}
use zip_extraction.Extraction.Service.{entry_info}
use zip_extraction.Extraction.Service.Effects.{World, Ports}
use zip_extraction.Extraction.Service.Rows.{new_outcome}
use zip_extraction.Extraction.Service.Entry.{
  after_open, after_check, sanitized, after_sanitize, process_entry,
}

-- An entry with a name and a header that pass, which archive/zip cannot open, fails without aborting
-- the archive, and no call notes it: no row is recorded.
pub process_entry-open_fails :
    {S B R : Type 0} (p : Ports S B R) (msg : ClaimCheck) (idx : ℕ) (file : ZipFile R) (w : World S)
    (name : Text) (e : Error)
    → sanitize file.name ≡ safe name
    → entry_check p.bomb_config (entry_info file) ≡ none
    → file.opened ≡ fail e
    → ((process_entry p msg idx file w).0.out.status ≡ entry_status_failed)
      × (((process_entry p msg idx file w).0.archive_abort ≡ false)
          × ((process_entry p msg idx file w).1.events ≡ w.events))
unfolding process_entry after_sanitize sanitized after_check after_open new_outcome
process_entry-open_fails p msg idx file w name e s c o = rw (s, c, o) (refl, (refl, refl))
