-- ===== src/Main/BombUpload.antt =====
-- A zip bomb that is found while an entry is streamed to S3, through the adapter, the retrier and the
-- service.
use zip_extraction.Common.{ℕ, suc, ◌≡◌, Option, none, some, ◌∷◌}
use zip_extraction.Common.Int.{pos_part}
use zip_extraction.Go.Strings.{Text}
use zip_extraction.Config.{Config}
use zip_extraction.Extraction.Errors.{Error, BombDefenceError, ok, is_bomb_defence}
use zip_extraction.Extraction.Types.{ClaimCheck, EntryInfo, EntryOutcome, entry_status_failed}
use zip_extraction.Extraction.ZipOpen.{rebuilt_read}
use zip_extraction.BombDefence.LimitedReader.{limited_read}
use zip_extraction.Extraction.Service.Effects.{upload_call, World, Stream}
use zip_extraction.Extraction.Service.Entry.{after_peeked}
use zip_extraction.Extraction.Service.Entry.Rejected.{IsRejected}
use zip_extraction.Extraction.Service.Entry.BombUpload.{peeked_outcome, after_peeked-IsRejected}
use zip_extraction.Storage.{put_object_input}
use zip_extraction.Storage.Laws.{upload-bomb}
use zip_extraction.Main.{Outside, storage_config, extraction_config, upload_entry, service_ports}

module _ {S B R : Type 0} (o : Outside S B R) (cfg : Config) (msg : ClaimCheck) where
  -- what the uploader of the SDK answers to the entry
  abbrev put_entry : EntryOutcome → Stream R → World S → Option Error × (Stream R × S)
  put_entry out stream w =
      o.put_object (rebuilt_read (limited_read o.float o.read))
        (put_object_input (storage_config o cfg) cfg.infra.staging_bucket out.child_key stream
          out.mime_type)
        w.env

  -- Where the configuration allows an attempt and the context is alive: if the error of the SDK's
  -- uploader has a bomb-defence error in its chain, then the entry is uploaded once, whatever class of
  -- error else there is, it fails for the rule of that error, and it aborts the archive.
  pub after_peeked-aborts :
      (more : ℕ) (out : EntryOutcome) (entry : EntryInfo) (idx : ℕ) (peek : Text)
      (stream : Stream R) (w : World S) (e : Error) (bde : BombDefenceError)
      → pos_part cfg.retry.max_attempts ≡ suc more
      → o.ctx_err w.env ≡ none
      → (put_entry (peeked_outcome (service_ports o cfg) msg out idx peek) stream w).0 ≡ some e
      → is_bomb_defence e ≡ some bde
      → out.status ≡ entry_status_failed
      → (e' : Error) × ((is_bomb_defence e' ≡ some bde)
          × IsRejected
              (service_ports o cfg)
              msg
              idx
              bde.rule
              (upload_call cfg.infra.staging_bucket
                  (peeked_outcome (service_ports o cfg) msg out idx peek).child_key
                  entry.uncompressed_size
                  (peeked_outcome (service_ports o cfg) msg out idx peek).mime_type
                  (some e')
                ∷ w.events)
              (after_peeked (service_ports o cfg) msg out entry idx (ok (peek, stream)) w))
  unfolding service_ports upload_entry extraction_config
  after_peeked-aborts more out entry idx peek stream w e bde some_attempts alive h b s =
      let p = service_ports o cfg in
      let out1 = peeked_outcome p msg out idx peek in
      let (e', (answer, (found, _))) =
        upload-bomb o.quote (o.put_object (rebuilt_read (limited_read o.float o.read)))
          (storage_config o cfg) cfg.infra.staging_bucket out1.child_key stream
          entry.uncompressed_size out1.mime_type w.env e bde h b in
      (
        e',
        (
          found,
          after_peeked-IsRejected p msg more out entry idx peek stream w e' bde some_attempts alive
              answer found s,
        ),
      )
