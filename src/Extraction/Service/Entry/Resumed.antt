-- ===== src/Extraction/Service/Entry/Resumed.antt =====
-- An upload that fails and is made again.
use zip_extraction.Common.{ℕ, suc, ◌≡◌, ◌∙◌, ap, true, false, Bool, Option, none, some, ◌∷◌}
use zip_extraction.Common.Int.{pos, pos_part}
use zip_extraction.Extraction.Errors.{Error}
use zip_extraction.Extraction.Types.{ClaimCheck, EntryInfo, EntryOutcome}
use zip_extraction.Extraction.ZipOpen.{rebuilt_read}
use zip_extraction.BombDefence.LimitedReader.{limited_read}
use zip_extraction.Retry.{is_retryable, backoff_for, compute_backoff}
use zip_extraction.Retry.SecondAttempt.{do_retry-second}
use zip_extraction.Extraction.Service.Effects.{upload_call, World, Stream, Ports, retry_env}
use zip_extraction.Extraction.Service.Entry.{upload_op, upload_with_retries}
use zip_extraction.Extraction.Service.Entry.BombUpload.{first_upload}

module _ {S B R : Type 0} (p : Ports S B R) (msg : ClaimCheck) where
  -- the pause after the first attempt
  abbrev pub first_pause : S → Bool × S
  first_pause s =
      let (r, s1) = p.rand s in
      p.wait
        (backoff_for p.float (pos 0) p.retry_config
          (p.float.sub (p.float.mul r (p.float.of_int (pos 2))) (p.float.of_int (pos 1))))
        s1

  -- The upload of what the first one has left of the stream, after the pause.
  abbrev pub second_upload :
      EntryOutcome → EntryInfo → Stream R → World S → (Option Error × Stream R) × S
  second_upload out entry stream w =
      p.upload p.config.staging_bucket out.child_key (rebuilt_read (limited_read p.float p.read))
        (first_upload p msg out entry stream w).0.1 entry.uncompressed_size out.mime_type
        (first_pause (first_upload p msg out entry stream w).1).1

  -- the world after the two uploads, with their errors
  abbrev pub after_two :
      EntryOutcome → EntryInfo → Stream R → World S → Option Error → Option Error → World S
  after_two out entry stream w first second =
      let call =
        upload_call p.config.staging_bucket out.child_key entry.uncompressed_size out.mime_type in
      record {
        env = (second_upload out entry stream w).1;
        events = call second ∷ call first ∷ w.events;
      }

  -- Where two attempts are allowed, the context stays alive and the pause is not cut short: an upload
  -- that fails with a retryable error and then succeeds has succeeded with what the failed one had left
  -- of the stream.
  pub upload_with_retries-resumes :
      (more : ℕ) (out : EntryOutcome) (entry : EntryInfo) (stream : Stream R) (w : World S)
      (e : Error)
      → pos_part p.retry_config.max_attempts ≡ suc (suc more)
      → p.ctx_err w.env ≡ none
      → (first_upload p msg out entry stream w).0.0 ≡ some e
      → is_retryable p.quote e ≡ true
      → (first_pause (first_upload p msg out entry stream w).1).0 ≡ false
      → p.ctx_err (first_pause (first_upload p msg out entry stream w).1).1 ≡ none
      → (second_upload out entry stream w).0.0 ≡ none
      → upload_with_retries p msg out entry stream w
        ≡ (none, after_two out entry stream w (some e) none)
  unfolding upload_with_retries upload_op compute_backoff
  upload_with_retries-resumes more out entry stream w e two alive h r waited alive2 done =
      ap (λ x. (x.0, x.1.0))
        (do_retry-second p.quote p.float p.retry_config (retry_env (Stream R) p)
          (upload_op p msg out entry) more (w, stream) e two alive h r waited alive2 done)
      ∙ ap (λ x. (none, after_two out entry stream w x (second_upload out entry stream w).0.0)) h
      ∙ ap (λ x. (none, after_two out entry stream w (some e) x)) done
