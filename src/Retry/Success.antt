-- ===== src/Retry/Success.antt =====
-- Where `Do` returns nil, its last call of the operation did.
use zip_extraction.Common.{
  ℕ, zero, suc, ◌+◌, ◌==◌, not, ◌≡◌, sym, ap, refl, arith, Bool, true, false, Option, Option-cases,
  none, some, if_intro, if◌then◌else◌, inl, inr,
}
use zip_extraction.Common.Int.{ℤ, pos_part}
use zip_extraction.Go.Strings.{Text}
use zip_extraction.Go.Float.{FloatOps}
use zip_extraction.Config.{RetryConfig}
use zip_extraction.Extraction.Errors.{Error, is_some}
use zip_extraction.Retry.{
  Env, do_retry, attempts, after_op, after_failure, compute_backoff, is_retryable,
}

-- A context that ended a wait has an error.
abbrev pub EndsWithError : {S : Type 0} → Env S → Type 0
EndsWithError {S} env =
    (d : ℤ) (s : S) → (env.wait d s).0 ≡ true → is_some (env.ctx_err (env.wait d s).1) ≡ true

module _ (quote : Text → Text) (fl : FloatOps) (cfg : RetryConfig) {S : Type 0} (env : Env S)
    (op : S → Option Error × S) (P : S → Type 0) (ends : EndsWithError env)
    (rand_keeps : (s : S) → P s → P (env.rand s).1)
    (wait_keeps : (s : S) (d : ℤ) → P s → P (env.wait d s).1)
    (op_keeps : (s : S) → P s → P (op s).1) where
  -- nil comes from a call of the operation in a state with `P`, whose state is the last
  abbrev Succeeds : Option Error × S → Type 0
  Succeeds x = x.0 ≡ none → (s : S) × (P s × (((op s).0 ≡ none) × (x.1 ≡ (op s).1)))

  no_success : (err : Error) (s : S) → Succeeds (some err, s)
  no_success err s e = absurd (ground arith)

  waited-Succeeds :
      (x : Bool × S) (go : S → Option Error × S)
      → (x.0 ≡ true → is_some (env.ctx_err x.1) ≡ true)
      → Succeeds (go x.1)
      → Succeeds (if x.0 then (env.ctx_err x.1, x.1) else go x.1)
  waited-Succeeds (false, s) go err next = next
  waited-Succeeds (true, s) go err next = λ e. absurd (some_none (env.ctx_err s) (err refl) e)
    where
      some_none : (o : Option Error) → is_some o ≡ true → o ≡ none → ⊥
      some_none none h e = ground arith
      some_none (some x) h e = ground arith

  after_failure-Succeeds :
      (left attempt : ℕ) (err : Error) (go : S → Option Error × S) (s : S)
      → P s
      → ((s1 : S) → P s1 → Succeeds (go s1))
      → Succeeds (after_failure quote fl cfg env op left attempt err go s)
  unfolding after_failure compute_backoff
  after_failure-Succeeds left attempt err go s h next =
      if_intro {A = Option Error × S} Succeeds (not (is_retryable quote err)) (no_success _ s) (
        if_intro {A = Option Error × S} Succeeds (left == 0) (no_success _ s) (
          waited-Succeeds (env.wait _ (env.rand s).1) go (ends _ (env.rand s).1)
            (next _ (wait_keeps (env.rand s).1 _ (rand_keeps s h)))))

  after_op-Succeeds :
      (left attempt : ℕ) (s : S) (x : Option Error × S) (go : S → Option Error × S)
      → op s ≡ x
      → P s
      → P x.1
      → ((s1 : S) → P s1 → Succeeds (go s1))
      → Succeeds (after_op quote fl cfg env op left attempt x go)
  unfolding after_op
  after_op-Succeeds left attempt s (none, s1) go e h h1 next =
      λ _. (s, (h, (ap (λ x. x.0) e, sym (ap (λ x. x.1) e))))
  after_op-Succeeds left attempt s (some err, s1) go e h h1 next =
      after_failure-Succeeds left attempt err go s1 h1 next

  attempts-Succeeds :
      (left attempt : ℕ) (s : S) → P s → Succeeds (attempts quote fl cfg env op left attempt s)
  unfolding attempts
  attempts-Succeeds zero attempt s h = no_success _ s
  attempts-Succeeds (suc left) attempt s h = elim (Option-cases (env.ctx_err s)) [
    | inl e ↦
        rw (attempts, e)
          (after_op-Succeeds left attempt s (op s) _ refl h (op_keeps s h)
            (attempts-Succeeds left (attempt + 1)))
    | inr (err, e) ↦ rw (attempts, e) (no_success err s)
  ]

  pub do_retry-Succeeds : (s : S) → P s → Succeeds (do_retry quote fl cfg env op s)
  unfolding do_retry
  do_retry-Succeeds s h = attempts-Succeeds (pos_part cfg.max_attempts) 0 s h
