-- ===== src/Retry/Refusal.antt =====
-- An error that is not retryable ends the loop of `Do` at once.
use zip_extraction.Common.{ℕ, suc, ◌≡◌, refl, false, Option, none, some}
use zip_extraction.Common.Int.{pos_part}
use zip_extraction.Go.Strings.{Text}
use zip_extraction.Go.Float.{FloatOps}
use zip_extraction.Config.{RetryConfig}
use zip_extraction.Extraction.Errors.{Error}
use zip_extraction.Retry.{Env, is_retryable, after_failure, after_op, attempts, do_retry}

module _ (quote : Text → Text) (fl : FloatOps) (cfg : RetryConfig) {S : Type 0} (env : Env S)
    (op : S → Option Error × S) where
  -- what follows an error that is not retryable, for the answer `x` of the operation
  after_op-refused :
      (left attempt : ℕ) (x : Option Error × S) (go : S → Option Error × S) (e : Error)
      → x.0 ≡ some e
      → is_retryable quote e ≡ false
      → after_op quote fl cfg env op left attempt x go ≡ x
  unfolding after_op after_failure
  after_op-refused left attempt (none, s) go e h r = refl
  after_op-refused left attempt (some e', s) go e h r =
      let same : is_retryable quote e' ≡ false = cc in rw same refl

  pub do_retry-refused :
      (more : ℕ) (s : S) (e : Error)
      → pos_part cfg.max_attempts ≡ suc more
      → env.ctx_err s ≡ none
      → (op s).0 ≡ some e
      → is_retryable quote e ≡ false
      → do_retry quote fl cfg env op s ≡ op s
  unfolding do_retry attempts
  do_retry-refused more s e some_attempts alive h r =
      rw (do_retry, some_attempts, attempts, alive)
        (after_op-refused more 0 (op s) (attempts quote fl cfg env op more 1) e h r)
