-- ===== src/Retry/Invariants.antt =====
-- What the retry loop keeps of the state.
use zip_extraction.Common.{
  ℕ, zero, suc, ◌+◌, ◌==◌, not, Option, Option-cases, none, some, if_intro, inl, inr,
}
use zip_extraction.Common.Int.{pos_part}
use zip_extraction.Go.Strings.{Text}
use zip_extraction.Go.Float.{FloatOps}
use zip_extraction.Config.{RetryConfig}
use zip_extraction.Extraction.Errors.{Error}
use zip_extraction.Retry.{
  Env, do_retry, attempts, after_op, after_failure, compute_backoff, is_retryable,
}

module _ (quote : Text → Text) (fl : FloatOps) (cfg : RetryConfig) {S : Type 0} (env : Env S)
    (op : S → Option Error × S) (P : S → Type 0) (rand_keeps : (s : S) → P s → P (env.rand s).1)
    (wait_keeps : (s : S) (d : _) → P s → P (env.wait d s).1)
    (op_keeps : (s : S) → P s → P (op s).1) where
  abbrev Keeps : (S → Option Error × S) → Type 0
  Keeps f = (s : S) → P s → P (f s).1

  after_failure-Keeps :
      (left attempt : ℕ) (err : Error) (go : S → Option Error × S)
      → Keeps go
      → Keeps (after_failure quote fl cfg env op left attempt err go)
  unfolding after_failure compute_backoff
  after_failure-Keeps left attempt err go keeps s h =
      if_intro {A = Option Error × S} (λ x. P x.1) (not (is_retryable quote err)) h
        (if_intro {A = Option Error × S} (λ x. P x.1) (left == 0) h
          (let waited = wait_keeps (env.rand s).1 _ (rand_keeps s h) in
            if_intro {A = Option Error × S} (λ x. P x.1) _ waited (keeps _ waited)))

  after_op-Keeps :
      (left attempt : ℕ) (x : Option Error × S) (go : S → Option Error × S)
      → Keeps go
      → P x.1
      → P (after_op quote fl cfg env op left attempt x go).1
  unfolding after_op
  after_op-Keeps left attempt (none, s) go keeps h = h
  after_op-Keeps left attempt (some err, s) go keeps h =
      after_failure-Keeps left attempt err go keeps s h

  attempts-Keeps : (left attempt : ℕ) → Keeps (attempts quote fl cfg env op left attempt)
  unfolding attempts
  attempts-Keeps zero attempt s h = h
  attempts-Keeps (suc left) attempt s h = elim (Option-cases (env.ctx_err s)) [
    | inl e ↦
        rw (attempts, e)
          (after_op-Keeps left attempt (op s) _ (attempts-Keeps left (attempt + 1)) (op_keeps s h))
    | inr (err, e) ↦ rw (attempts, e) h
  ]

  pub do_retry-Keeps : Keeps (do_retry quote fl cfg env op)
  unfolding do_retry
  do_retry-Keeps s h = attempts-Keeps (pos_part cfg.max_attempts) 0 s h
