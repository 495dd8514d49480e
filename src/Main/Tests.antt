-- ===== src/Main/Tests.antt =====
-- The wiring over an outside of which every call succeeds.
use zip_extraction.Common.{ℕ, ◌≡◌, ◌⊎◌, ◌∙◌, refl, none, some, List, [], ◌∷◌, leb}
use zip_extraction.Common.Int.{pos}
use zip_extraction.Go.Strings.{Text, text, str_eq}
use zip_extraction.Extraction.Errors.{
  Error, BombDefenceError, bomb, wrap, is_bomb_defence, find, ok,
}
use zip_extraction.Extraction.Types.{failed, EntryOutcome, EntryInfo, entry_status_failed}
use zip_extraction.Extraction.ZipOpen.{both}
use zip_extraction.BombDefence.LimitedReader.{new_limited_reader}
use zip_extraction.Extraction.Service.Effects.{SlipsheetCall, World, Stream, Ports, upload_call}
use zip_extraction.Extraction.Service.Entry.{after_peeked}
use zip_extraction.Extraction.Service.Entry.Rejected.{IsRejected}
use zip_extraction.Extraction.Service.Entry.BombUpload.{peeked_outcome}
use zip_extraction.Config.Validate.Samples.{quote, floats, config}
use zip_extraction.Config.Load.Samples.{environment, open_file, decode, loads}
use zip_extraction.Storage.{PutObjectInput}
use zip_extraction.Sqs.Loop.{Loop, new_loop, Runs, here, main, receive}
use zip_extraction.Sqs.Loop.Drain.{GoesOn}
use zip_extraction.Main.{
  Outside, write_slipsheet, slot_capacity, service_ports, startup_probe, exit_code, returned,
}
use zip_extraction.Main.Samples.{outside_of, outside, claim_check}
use zip_extraction.Main.Document.{IsDocumentOf, IsLog, Puts, process-puts_document}
use zip_extraction.Extraction.Service.Guarantees.{slipsheets}
use zip_extraction.Extraction.Service.Process.{process}
use zip_extraction.Slipsheet.{Slipsheet}
use zip_extraction.Slipsheet.Laws.{by_index}
use zip_extraction.Go.Sort.{insertion_sort, insertion_sort-IsSorting}
use zip_extraction.Main.BombUpload.{after_peeked-aborts}
use zip_extraction.Main.Laws.{Busy, load-progress}

abbrev call : SlipsheetCall
call = record {
  exec_id = text "e1";
  source_archive = text "k.zip";
  status = failed;
  entries = [];
  reason = [];
  detail = [];
}

puts : write_slipsheet outside config call [] ≡ (none, text "slipsheets/e1.json" ∷ [])
unfolding write_slipsheet text str_eq zip_extraction.Slipsheet.write
    zip_extraction.Slipsheet.new_writer zip_extraction.Slipsheet.slipsheet_key
    zip_extraction.Slipsheet.marshal zip_extraction.Storage.upload zip_extraction.Slipsheet.build
puts = refl

codes : (exit_code (returned none) ≡ 0) × (startup_probe none ≡ none)
unfolding exit_code startup_probe
codes = (refl, refl)

receives : (n : ℕ) × (s : Loop) × Runs (slot_capacity outside loads.0) new_loop n s
unfolding new_loop
receives = (_, _, main here (receive refl refl))

load-progress_example : GoesOn (slot_capacity outside loads.0) receives.1 ⊎ Busy receives.1
load-progress_example =
    load-progress quote open_file decode floats leb outside environment loads.0 loads.1 receives.2

-- the uploader fails when the reader has found a violation of rule 3
abbrev violation : BombDefenceError
violation = record { rule = 3; reason = text "ratio" }

abbrev outside_bomb : Outside (List Text) Text Text
outside_bomb = record outside {
  put_object = λ read input s. (some (wrap (text "upload: ") (bomb violation)), (input.body, s));
}

abbrev fresh_outcome : EntryOutcome
fresh_outcome = record {
  index = 1;
  safe_name = text "a.txt";
  child_key = [];
  mime_type = [];
  size_bytes = pos 0;
  status = entry_status_failed;
  failure_reason = [];
  failure_detail = [];
  recorded_at = pos 0;
  classification = none;
}

abbrev header : EntryInfo
header = record {
  method = 8;
  name = text "a.txt";
  directory_depth = pos 0;
  mode = 420;
  compressed_size = pos 3;
  uncompressed_size = pos 6;
}

abbrev stream : Stream Text
stream = both (text "ab") (new_limited_reader config.bomb_defence (text "cdef") (pos 3))

abbrev rejected_ports : Ports (List Text) Text Text
rejected_ports = service_ports outside_bomb config

is_violation : is_bomb_defence (wrap (text "upload: ") (bomb violation)) ≡ some violation
unfolding is_bomb_defence find
is_violation = refl

after_peeked-aborts_example :
    (e' : Error) × ((is_bomb_defence e' ≡ some violation)
      × IsRejected rejected_ports claim_check 1 3
          (upload_call config.infra.staging_bucket
              (peeked_outcome rejected_ports claim_check fresh_outcome 1 (text "ab")).child_key
              (pos 6)
              (peeked_outcome rejected_ports claim_check fresh_outcome 1 (text "ab")).mime_type
              (some e')
            ∷ [])
          (after_peeked rejected_ports claim_check fresh_outcome header 1
            (ok (text "ab", stream))
            (record { env = []; events = [] })))
after_peeked-aborts_example =
    after_peeked-aborts outside_bomb config claim_check 2 fresh_outcome header 1 (text "ab") stream
      (record { env = []; events = [] }) (wrap (text "upload: ") (bomb violation)) violation refl
      refl refl is_violation refl

-- the state is the log of the bodies in memory that were put, and the sort does sort
abbrev outside_log : Outside (List (PutObjectInput Text)) Text Text
outside_log = record (outside_of (λ input s. s) (λ input s. input ∷ s)) {
  sort_by_index = insertion_sort by_index;
}

outside_log-IsLog : IsLog outside_log (λ s. s)
outside_log-IsLog = record {
  others = record {
    same = λ s. refl;
    then = λ a b c d e. e ∙ d;
    now = λ s. refl;
    rand = λ s. refl;
    wait = λ d s. refl;
    create_temp = λ pattern s. refl;
    copy = λ name body s. refl;
    remove = λ name s. refl;
    get_object = λ bucket key s. refl;
    put_object = λ read input s. refl;
    read_all = λ body s. refl;
    send = λ request s. refl;
  };
  put_item = λ item s. refl;
  redelivery_skip = λ s. refl;
  put_bytes = λ input s. refl;
}

abbrev first_world : World (List (PutObjectInput Text))
first_world = record { env = []; events = [] }

process-puts_document_example :
    (call : SlipsheetCall) × ((doc : Slipsheet) × ((slipsheets
            (process (service_ports outside_log config) claim_check first_world).1.events
          ≡ call ∷ slipsheets [])
        × (IsDocumentOf claim_check
              (process (service_ports outside_log config) claim_check first_world).0
              call
              doc
            × Puts outside_log config
                (λ s. s)
                claim_check
                doc
                []
                (process (service_ports outside_log config) claim_check first_world).1.env)))
process-puts_document_example =
    process-puts_document outside_log config (λ s. s) outside_log-IsLog claim_check first_world
      (insertion_sort-IsSorting by_index)
