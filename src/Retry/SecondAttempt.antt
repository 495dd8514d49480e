-- ===== src/Retry/SecondAttempt.antt =====
-- The loop of `Do` where the first attempt fails and the second one succeeds.
use zip_extraction.Common.{ℕ, suc, ◌≡◌, ◌∙◌, refl, true, false, Option, none, some, arith, ◌==◌}
use zip_extraction.Common.Int.{pos_part}
use zip_extraction.Go.Strings.{Text}
use zip_extraction.Go.Float.{FloatOps}
use zip_extraction.Config.{RetryConfig}
use zip_extraction.Extraction.Errors.{Error}
use zip_extraction.Retry.{Env, is_retryable, after_failure, after_op, attempts, do_retry}
use zip_extraction.Retry.Recovery.{pause}

module _ (quote : Text → Text) (fl : FloatOps) (cfg : RetryConfig) {S : Type 0} (env : Env S)
    (op : S → Option Error × S) where
  -- an error that is retried, with attempts left and a pause that is not cut short
  after_op-goes_on :
      (left attempt : ℕ) (x : Option Error × S) (go : S → Option Error × S) (e : Error)
      → x.0 ≡ some e
      → is_retryable quote e ≡ true
      → (pause quote fl cfg env op attempt x.1).0 ≡ false
      → after_op quote fl cfg env op (suc left) attempt x go
        ≡ go (pause quote fl cfg env op attempt x.1).1
  unfolding after_op after_failure
  after_op-goes_on left attempt (none, s) go e h r waited = absurd (ground arith)
  after_op-goes_on left attempt (some e', s) go e h r waited =
      let same : is_retryable quote e' ≡ true = cc in
      let more_left : (suc left == 0) ≡ false = ground arith in rw (same, more_left, waited) refl

  after_op-done :
      (left attempt : ℕ) (x : Option Error × S) (go : S → Option Error × S)
      → x.0 ≡ none
      → after_op quote fl cfg env op left attempt x go ≡ (none, x.1)
  unfolding after_op
  after_op-done left attempt (none, s) go h = refl
  after_op-done left attempt (some e, s) go h = absurd (ground arith)

  -- The state in which the second attempt is made is that which the first one and the pause leave.
  pub do_retry-second :
      (more : ℕ) (s : S) (e : Error)
      → pos_part cfg.max_attempts ≡ suc (suc more)
      → env.ctx_err s ≡ none
      → (op s).0 ≡ some e
      → is_retryable quote e ≡ true
      → (pause quote fl cfg env op 0 (op s).1).0 ≡ false
      → env.ctx_err (pause quote fl cfg env op 0 (op s).1).1 ≡ none
      → (op (pause quote fl cfg env op 0 (op s).1).1).0 ≡ none
      → do_retry quote fl cfg env op s ≡ (none, (op (pause quote fl cfg env op 0 (op s).1).1).1)
  unfolding do_retry attempts
  do_retry-second more s e two alive h r waited alive2 done =
      rw (do_retry, two, attempts, alive)
        (after_op-goes_on more 0 (op s) (attempts quote fl cfg env op (suc more) 1) e h r waited
          ∙ rw (attempts, alive2)
              (after_op-done more 1 (op (pause quote fl cfg env op 0 (op s).1).1)
                (attempts quote fl cfg env op more 2) done))
