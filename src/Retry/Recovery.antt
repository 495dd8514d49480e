-- ===== src/Retry/Recovery.antt =====
-- How often `Do` calls the operation, and when it succeeds.
use zip_extraction.Common.{
  ℕ, zero, suc, ◌+◌, ◌≤◌, ◌<◌, ◌≡◌, refl, Bool, true, false, Option, none, some, arith,
  Option-cases, inl, inr, ◌==◌,
}
use zip_extraction.Common.Int.{pos_part}
use zip_extraction.Go.Strings.{Text}
use zip_extraction.Go.Float.{FloatOps}
use zip_extraction.Config.{RetryConfig}
use zip_extraction.Extraction.Errors.{Error}
use zip_extraction.Retry.{
  Env, is_retryable, compute_backoff, after_failure, after_op, attempts, do_retry,
}

module _ (quote : Text → Text) (fl : FloatOps) (cfg : RetryConfig) {S : Type 0} (env : Env S)
    (op : S → Option Error × S) where
  -- the pause after a failure
  abbrev pub pause : ℕ → S → Bool × S
  pause attempt s =
      let (delay, s1) = compute_backoff quote fl cfg env attempt s in env.wait delay s1

  module _ (calls : S → ℕ) (counted : (s : S) → calls (op s).1 ≤ calls s + 1)
      (paused : (attempt : ℕ) (s : S) → calls (pause attempt s).1 ≤ calls s) where
    after_failure-calls :
        (left attempt : ℕ) (err : Error) (go : S → Option Error × S) (s : S)
        → ((s' : S) → calls (go s').1 ≤ calls s' + left)
        → calls (after_failure quote fl cfg env op left attempt err go s).1 ≤ calls s + left
    unfolding after_failure
    after_failure-calls left attempt err go s h =
        ground (arith, paused attempt s, h (pause attempt s).1)

    after_op-calls :
        (left attempt : ℕ) (s : S) (r : Option Error × S) (go : S → Option Error × S)
        → calls r.1 ≤ calls s + 1
        → ((s' : S) → calls (go s').1 ≤ calls s' + left)
        → calls (after_op quote fl cfg env op left attempt r go).1 ≤ calls s + suc left
    unfolding after_op
    after_op-calls left attempt s (none, s') go c h = omega arith
    after_op-calls left attempt s (some err, s') go c h =
        omega (arith, after_failure-calls left attempt err go s' h)

    attempts-calls :
        (left attempt : ℕ) (s : S)
        → calls (attempts quote fl cfg env op left attempt s).1 ≤ calls s + left
    unfolding attempts
    attempts-calls zero attempt s = omega arith
    attempts-calls (suc left) attempt s = elim (Option-cases (env.ctx_err s)) [
      | inr (e, y) ↦ rw (y, attempts) (omega arith)
      | inl n ↦
          rw (n, attempts)
            (after_op-calls left attempt s (op s) (attempts quote fl cfg env op left (attempt + 1))
              (counted s) (attempts-calls left (attempt + 1)))
    ]

  -- From `s`, with attempt number `attempt` next, the operation fails with retryable errors at most
  -- `k` times and then succeeds, while the context stays alive.
  pub data Recovers : ℕ → ℕ → S → Type 0 where
    now : {k attempt : ℕ} {s : S} → env.ctx_err s ≡ none → (op s).0 ≡ none → Recovers k attempt s
    later :
        {k attempt : ℕ} {s : S} (err : Error)
        → env.ctx_err s ≡ none
        → (op s).0 ≡ some err
        → is_retryable quote err ≡ true
        → (pause attempt (op s).1).0 ≡ false
        → Recovers k (attempt + 1) (pause attempt (op s).1).1
        → Recovers (suc k) attempt s

  after_op-none :
      (left attempt : ℕ) (r : Option Error × S) (go : S → Option Error × S)
      → r.0 ≡ none
      → (after_op quote fl cfg env op left attempt r go).0 ≡ none
  unfolding after_op
  after_op-none left attempt (none, s) go e = refl
  after_op-none left attempt (some err, s) go e = cc

  after_op_later :
      (left attempt : ℕ) (r : Option Error × S) (err : Error) (go : S → Option Error × S)
      → 0 < left
      → r.0 ≡ some err
      → is_retryable quote err ≡ true
      → (pause attempt r.1).0 ≡ false
      → after_op quote fl cfg env op left attempt r go ≡ go (pause attempt r.1).1
  unfolding after_op after_failure
  after_op_later left attempt (none, s) err go h e y w = cc
  after_op_later zero attempt (some err', s) err go h e y w = absurd (omega arith)
  after_op_later (suc left) attempt (some err', s) err go h e y w =
      let y' : is_retryable quote err' ≡ true = ground arith in
      let positive : (suc left == 0) ≡ false = ground arith in rw (y', positive, w) refl

  attempts_none :
      (k left attempt : ℕ) (s : S)
      → k < left
      → Recovers k attempt s
      → (attempts quote fl cfg env op left attempt s).0 ≡ none
  unfolding attempts
  attempts_none k zero attempt s h r = absurd (omega arith)
  attempts_none k (suc left) attempt s h (now c o) =
      rw (c, attempts) (after_op-none left attempt (op s) _ o)
  attempts_none (suc k) (suc left) attempt s h (later err c o y w r) =
      rw (c, attempts)
        (rw
          (after_op_later left attempt (op s) err (attempts quote fl cfg env op left (attempt + 1))
            (omega arith) o y w)
          (attempts_none k left (attempt + 1) (pause attempt (op s).1).1 (omega arith) r))

-- `Do` calls the operation at most `MaxAttempts` times, for any count of the calls that a call adds
-- one to and a pause does not add to.
pub do_retry-calls :
    (quote : Text → Text) (fl : FloatOps) (cfg : RetryConfig) {S : Type 0} (env : Env S)
    (op : S → Option Error × S) (calls : S → ℕ) (s : S)
    → ((s' : S) → calls (op s').1 ≤ calls s' + 1)
    → ((attempt : ℕ) (s' : S) → calls (pause quote fl cfg env op attempt s').1 ≤ calls s')
    → calls (do_retry quote fl cfg env op s).1 ≤ calls s + pos_part cfg.max_attempts
unfolding do_retry
do_retry-calls quote fl cfg env op calls s c p =
    attempts-calls quote fl cfg env op calls c p (pos_part cfg.max_attempts) 0 s

-- An operation that fails fewer times than `MaxAttempts`, each time with a retryable error, while the
-- context stays alive before each call and no pause is cut short, and that then succeeds, makes `Do`
-- return nil.
pub do_retry-Recovers :
    (quote : Text → Text) (fl : FloatOps) (cfg : RetryConfig) {S : Type 0} (env : Env S)
    (op : S → Option Error × S) (k : ℕ) (s : S)
    → k < pos_part cfg.max_attempts
    → Recovers quote fl cfg env op k 0 s
    → (do_retry quote fl cfg env op s).0 ≡ none
unfolding do_retry
do_retry-Recovers quote fl cfg env op k s h r =
    attempts_none quote fl cfg env op k (pos_part cfg.max_attempts) 0 s h r
