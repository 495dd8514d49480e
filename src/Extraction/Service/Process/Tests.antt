-- ===== src/Extraction/Service/Process/Tests.antt =====
-- Theorems on Process at concrete ports, of which some keep a list of temporary files.
use zip_extraction.Common.{
  ◌⊎◌, ℕ, ◌≡◌, ◌∙◌, refl, ap, false, none, some, List, [], ◌∷◌, ◌++◌, All, arith, drop, Option,
}
use zip_extraction.Common.Int.{pos}
use zip_extraction.Go.Strings.{Text, text}
use zip_extraction.Extraction.Errors.{Error, BombDefenceError, ok, fail, eof, bomb}
use zip_extraction.Extraction.Types.{ArchiveMetadata}
use zip_extraction.BombDefence.{pre_check}
use zip_extraction.BombDefence.Limits.{IsWithin}
use zip_extraction.Extraction.Service.Samples.{sample_config, file, ports, message, world}
use zip_extraction.Extraction.Service.Effects.{SlipsheetCall, Event, slipsheet_call, Ports}
use zip_extraction.Extraction.Service.Process.{after_open_zip, process}
use zip_extraction.Extraction.Service.Process.TempFiles.{KeepsFiles, process-leaves_no_file}
use zip_extraction.Extraction.Service.Process.Shown.{IsShown}
use zip_extraction.Extraction.Service.Process.Shown.{process-lists_uploaded}
use zip_extraction.Extraction.Service.Process.Counted.{HasFailure, process-counts_failure}
use zip_extraction.Extraction.Service.Process.Rejected.{IsRefused, after_open_zip-IsRefused}

-- the state is the list of the temporary files
abbrev disk_ports : Ports (List Text) Text Text
disk_ports = record {
  now = λ s. (pos 1, s);
  ctx_err = λ s. none;
  rand = λ s. (0, s);
  wait = λ d s. (false, s);
  download = λ bucket key s. (ok (text "PK", pos 2), s);
  create_temp = λ pattern s. (ok pattern, pattern ∷ s);
  copy = λ name body s. (none, s);
  remove = λ name s. drop 1 s;
  temp_file = λ name s. ports.temp_file name 0;
  read = ports.read;
  upload = λ bucket key read stream size mime s. ((none, (read stream 1024).1), s);
  record_entry = λ row s. (none, s);
  write_slipsheet = λ call s. (none, s);
  classifier = none;
  sniff = ports.sniff;
  mime_by_extension = ports.mime_by_extension;
  quote = ports.quote;
  float = ports.float;
  sort_by_start = ports.sort_by_start;
  bomb_config = ports.bomb_config;
  retry_config = ports.retry_config;
  config = ports.config;
}

disk_ports-KeepsFiles : KeepsFiles disk_ports (λ s. s)
disk_ports-KeepsFiles = record {
  file_system = record {
    create_ok = λ pattern name s e. ap (λ n. n ∷ s) (name_of pattern name e);
    create_fails = λ pattern e s h. absurd (ground arith);
    copy_keeps = λ name body s. refl;
    remove_latest = λ name others s e. ap (drop 1) e;
  };
  write_slipsheet = λ call s. refl;
  others = record {
    same = λ w. refl;
    then = λ a b c d e. e ∙ d;
    counted = λ x w. refl;
    now = λ w. refl;
    rand = λ w. refl;
    wait = λ d w. refl;
    download = λ bucket key w. refl;
    upload = λ bucket key read stream size mime w. refl;
    record_entry = λ row w writes. refl;
    classify = λ classify e. absurd (ground arith);
  };
}
  where
    name_of : (pattern name : Text) → ok pattern ≡ ok name → pattern ≡ name
    name_of pattern name e = cc

process-leaves_no_file_example :
    (process disk_ports message (record { env = text "x" ∷ []; events = [] })).1.env ≡ text "x" ∷ []
process-leaves_no_file_example =
    process-leaves_no_file disk_ports (λ s. s) disk_ports-KeepsFiles message
      (record { env = text "x" ∷ []; events = [] })

process-lists_uploaded_example :
    (call : SlipsheetCall) × ((err : Option Error) × ((later : List Event) × ((before : List Event)
          × (((process ports message (record { env = 0; events = [] })).1.events
                ≡ later ++ (slipsheet_call call err ∷ before))
              × All (IsShown message before) call.entries))))
process-lists_uploaded_example =
    process-lists_uploaded ports message (λ d s e. absurd (ground arith)) 0

abbrev too_large : ArchiveMetadata
too_large = record {
  entry_count = pos 1;
  total_compressed_bytes = pos 1001;
  total_declared_uncompressed_bytes = pos 6;
  zip64 = false;
  encrypted = false;
  multi_disk = false;
  has_deflate64_entries = false;
  entry_data_ranges = [];
}

too_large-not_IsWithin : ¬ IsWithin sample_config too_large
too_large-not_IsWithin h = let small = h.compressed in ground arith

after_open_zip-IsRefused_example :
    (bde : BombDefenceError) × ((pre_check sample_config too_large ≡ some (bomb bde))
      × IsRefused bde.rule []
          (after_open_zip ports message (pos 0) (ok (file ∷ [], too_large)) world))
after_open_zip-IsRefused_example =
    after_open_zip-IsRefused ports message (pos 0) (file ∷ []) too_large world
      too_large-not_IsWithin

-- the archive cannot be downloaded
abbrev lost_ports : Ports ℕ Text Text
lost_ports = record ports { download = λ bucket key s. (fail eof, s) }

process-counts_failure_example :
    ((process lost_ports message (record { env = 0; events = [] })).0.reason ≡ [])
    ⊎ HasFailure (process lost_ports message (record { env = 0; events = [] })).1.events
process-counts_failure_example = process-counts_failure lost_ports message 0
