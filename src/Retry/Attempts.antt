-- ===== src/Retry/Attempts.antt =====
-- The loop of `Do`: what it can return, how often it calls the operation, and when it succeeds.
use zip_extraction.Common.{
  sym, ◌∙◌, ℕ, zero, suc, ◌+◌, ◌≡◌, inl, inr, refl, Bool, true, false, Option, none, some, arith,
  Bool-cases, Option-cases, ◌==◌, if◌then◌else◌,
}
use zip_extraction.Common.Int.{pos_part}
use zip_extraction.Go.Strings.{Text}
use zip_extraction.Go.Float.{FloatOps}
use zip_extraction.Config.{RetryConfig}
use zip_extraction.Extraction.Errors.{
  Error, permanent, permanent_nil, is_some, is_transient, is_permanent,
}
use zip_extraction.Retry.Classes.{IsFinal, IsFinal-of_is_retryable}
use zip_extraction.Retry.{
  Env, is_retryable, compute_backoff, after_failure, after_op, attempts, do_retry,
}

module _ (quote : Text → Text) (fl : FloatOps) (cfg : RetryConfig) {S : Type 0} (env : Env S)
    (op : S → Option Error × S) where
  -- What `Do` may return: nil, the error of the context, an error of the operation that is not
  -- retryable, or a permanent error.
  pub data IsAnswer : Option Error → Type 0 where
    done : IsAnswer none
    ended : {r : Option Error} (s : S) → r ≡ env.ctx_err s → IsAnswer r
    refused : (e : Error) → is_retryable quote e ≡ false → IsAnswer (some e)
    exhausted : (e : Error) → IsAnswer (some (permanent e))
    never_ran : IsAnswer (some permanent_nil)

  after_failure-IsAnswer :
      (left attempt : ℕ) (err : Error) (go : S → Option Error × S) (s : S)
      → ((s' : S) → IsAnswer (go s').0)
      → IsAnswer (after_failure quote fl cfg env op left attempt err go s).0
  unfolding after_failure
  after_failure-IsAnswer left attempt err go s h = elim (Bool-cases (is_retryable quote err)) [
    | inr n ↦ rw n (refused err n)
    | inl y ↦ rw y (elim (Bool-cases (left == 0)) [
      | inl z ↦ rw z (exhausted err)
      | inr m ↦ rw m (
          waited (
            env.wait (compute_backoff quote fl cfg env attempt s).0
              (compute_backoff quote fl cfg env attempt s).1))
    ])
  ]
    where
      waited : (w : Bool × S) → IsAnswer (if w.0 then (env.ctx_err w.1, w.1) else go w.1).0
      waited (true, s2) = ended s2 refl
      waited (false, s2) = h s2

  after_op-IsAnswer :
      (left attempt : ℕ) (r : Option Error × S) (go : S → Option Error × S)
      → ((s' : S) → IsAnswer (go s').0)
      → IsAnswer (after_op quote fl cfg env op left attempt r go).0
  unfolding after_op
  after_op-IsAnswer left attempt (none, s) go h = done
  after_op-IsAnswer left attempt (some err, s) go h = after_failure-IsAnswer left attempt err go s h

  attempts-IsAnswer :
      (left attempt : ℕ) (s : S) → IsAnswer (attempts quote fl cfg env op left attempt s).0
  unfolding attempts
  attempts-IsAnswer zero attempt s = never_ran
  attempts-IsAnswer (suc left) attempt s = elim (Option-cases (env.ctx_err s)) [
    | inl n ↦
        rw (n, attempts)
          (after_op-IsAnswer left attempt (op s) (attempts quote fl cfg env op left (attempt + 1))
            (attempts-IsAnswer left (attempt + 1)))
    | inr (e, y) ↦ rw (y, attempts) (ended s (rw y))
  ]

do_retry-IsAnswer :
    (quote : Text → Text) (fl : FloatOps) (cfg : RetryConfig) {S : Type 0} (env : Env S)
    (op : S → Option Error × S) (s : S)
    → IsAnswer quote fl cfg env op (do_retry quote fl cfg env op s).0
unfolding do_retry
do_retry-IsAnswer quote fl cfg env op s =
    attempts-IsAnswer quote fl cfg env op (pos_part cfg.max_attempts) 0 s

-- An error that `Do` returns holds no `TransientError`, unless a bomb-defence, path-validation,
-- unsupported-feature or permanent error stands in its chain too; the errors of the context are
-- taken to hold none.
pub do_retry-IsFinal :
    (quote : Text → Text) (fl : FloatOps) (cfg : RetryConfig) {S : Type 0} (env : Env S)
    (op : S → Option Error × S) (s : S) (e : Error)
    → ((s' : S) (c : Error) → env.ctx_err s' ≡ some c → is_some (is_transient c) ≡ false)
    → (do_retry quote fl cfg env op s).0 ≡ some e
    → is_some (is_transient e) ≡ true
    → IsFinal e
unfolding is_permanent
do_retry-IsFinal quote fl cfg {S} env op s e ctx r t =
    final (do_retry quote fl cfg env op s).0 (do_retry-IsAnswer quote fl cfg env op s) r
  where
    final : (o : Option Error) → IsAnswer quote fl cfg env op o → o ≡ some e → IsFinal e
    final _ done k = cc
    final o (ended s' q) k = cc (ctx s' e (sym q ∙ k))
    final _ (refused e' n) k =
        let q : e' ≡ e = ground arith in IsFinal-of_is_retryable quote e (rw (← q) n) t
    final _ (exhausted e') k = ground (arith, k)
    final _ never_ran k = ground (arith, k)
