-- ===== src/Extraction/Service/Entry/BombUpload.antt =====
-- An entry whose reader breaks a rule while it is uploaded.
use mathlib.Core.Path.{subst}
use zip_extraction.Common.{ℕ, suc, ◌≡◌, ◌∙◌, inl, refl, sym, ap, false, Option, none, some, ◌∷◌}
use zip_extraction.Common.Int.{pos_part}
use zip_extraction.Go.Strings.{Text}
use zip_extraction.Extraction.Errors.{Error, BombDefenceError, ok, is_bomb_defence}
use zip_extraction.Extraction.Types.{ClaimCheck, EntryInfo, EntryOutcome, entry_status_failed}
use zip_extraction.Extraction.ZipOpen.{rebuilt_read}
use zip_extraction.BombDefence.LimitedReader.{limited_read}
use zip_extraction.Retry.{is_retryable}
use zip_extraction.Retry.Classes.{is_retryable_final}
use zip_extraction.Retry.Refusal.{do_retry-refused}
use zip_extraction.Extraction.Service.{build_child_key}
use zip_extraction.Extraction.Service.Effects.{upload_call, World, Stream, Ports, retry_env}
use zip_extraction.Extraction.Service.Rows.{detect_mime}
use zip_extraction.Extraction.Service.Entry.{
  upload_op, upload_with_retries, after_upload, after_peeked,
}
use zip_extraction.Extraction.Service.Entry.Rejected.{IsRejected, reject_bomb-IsRejected}

module _ {S B R : Type 0} (p : Ports S B R) (msg : ClaimCheck) where
  -- what the first upload of the entry answers
  abbrev pub first_upload :
      EntryOutcome → EntryInfo → Stream R → World S → (Option Error × Stream R) × S
  first_upload out entry stream w =
      p.upload p.config.staging_bucket out.child_key (rebuilt_read (limited_read p.float p.read))
        stream entry.uncompressed_size out.mime_type w.env

  -- the outcome with what is known of the entry once its first bytes are
  abbrev pub peeked_outcome : EntryOutcome → ℕ → Text → EntryOutcome
  peeked_outcome out idx peek = record out {
    mime_type = detect_mime p msg peek out.safe_name;
    child_key = build_child_key msg.pipeline_execution_id idx out.safe_name;
  }

  -- the world after the only upload
  abbrev pub uploaded_once : EntryOutcome → EntryInfo → Stream R → Error → World S → World S
  uploaded_once out entry stream e w = record {
    env = (first_upload out entry stream w).1;
    events =
        upload_call p.config.staging_bucket out.child_key entry.uncompressed_size out.mime_type
          (some e)
        ∷ w.events;
  }

  upload_with_retries-once :
      (more : ℕ) (out : EntryOutcome) (entry : EntryInfo) (stream : Stream R) (w : World S)
      (e : Error)
      → pos_part p.retry_config.max_attempts ≡ suc more
      → p.ctx_err w.env ≡ none
      → (first_upload out entry stream w).0.0 ≡ some e
      → is_retryable p.quote e ≡ false
      → upload_with_retries p msg out entry stream w ≡ (some e, uploaded_once out entry stream e w)
  unfolding upload_with_retries upload_op
  upload_with_retries-once more out entry stream w e some_attempts alive h final =
      ap (λ r. (r.0, r.1.0))
        (do_retry-refused p.quote p.float p.retry_config (retry_env (Stream R) p)
          (upload_op p msg out entry) more (w, stream) e some_attempts alive h final)
      ∙ ap
          (λ err. (
            err,
            record {
              env = (first_upload out entry stream w).1;
              events =
                  upload_call p.config.staging_bucket out.child_key entry.uncompressed_size
                    out.mime_type err
                  ∷ w.events;
            },
          ))
          h

  after_upload-IsRejected :
      (out : EntryOutcome) (entry : EntryInfo) (idx : ℕ) (e : Error) (bde : BombDefenceError)
      (w : World S)
      → is_bomb_defence e ≡ some bde
      → out.status ≡ entry_status_failed
      → IsRejected p msg idx bde.rule w.events (after_upload p msg out entry idx (some e) w)
  unfolding after_upload
  after_upload-IsRejected out entry idx e bde w b s =
      rw (after_upload, b) (reject_bomb-IsRejected p msg out idx bde.rule bde.reason w s)

  -- An upload of which the error has a bomb-defence error in its chain is not made again, and the
  -- entry is rejected by the rule of that error, where the context is alive.
  pub after_peeked-IsRejected :
      (more : ℕ) (out : EntryOutcome) (entry : EntryInfo) (idx : ℕ) (peek : Text)
      (stream : Stream R) (w : World S) (e : Error) (bde : BombDefenceError)
      → pos_part p.retry_config.max_attempts ≡ suc more
      → p.ctx_err w.env ≡ none
      → (first_upload (peeked_outcome out idx peek) entry stream w).0.0 ≡ some e
      → is_bomb_defence e ≡ some bde
      → out.status ≡ entry_status_failed
      → IsRejected p msg idx bde.rule
          (uploaded_once (peeked_outcome out idx peek) entry stream e w).events
          (after_peeked p msg out entry idx (ok (peek, stream)) w)
  unfolding after_peeked
  after_peeked-IsRejected more out entry idx peek stream w e bde some_attempts alive h b s =
      let out1 = peeked_outcome out idx peek in
      let final = is_retryable_final p.quote e (inl (rw b refl)) in
      subst
        (λ r.
          IsRejected p msg idx bde.rule (uploaded_once out1 entry stream e w).events
            (after_upload p msg out1 entry idx r.0 r.1))
        (sym (upload_with_retries-once more out1 entry stream w e some_attempts alive h final))
        (after_upload-IsRejected out1 entry idx e bde (uploaded_once out1 entry stream e w) b s)
