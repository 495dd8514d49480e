-- ===== src/Retry.antt =====
-- services/zip-extraction/internal/retry/retry.go: which errors are transient, and the loop that
-- tries an operation again.
pub mod Classes
pub mod Attempts
pub mod Recovery
pub mod Invariants
pub mod Success
pub mod Refusal
pub mod SecondAttempt
mod Tests
use zip_extraction.Common.{
  ℕ, zero, suc, ◌+◌, Bool, true, false, not, ◌&&◌, ◌||◌, Option, none, some, List, [], ◌∷◌, any,
  ltb, leb, ◌==◌, if◌then◌else◌,
}
use zip_extraction.Common.Int.{ℤ, pos, pos_part, ltb_ℤ, gtb_ℤ}
use zip_extraction.Go.Strings.{Text, text, str_eq, contains}
use zip_extraction.Go.Float.{Float64, FloatOps}
use zip_extraction.Config.{RetryConfig}
use zip_extraction.Extraction.Errors.{
  Error, transient, permanent, permanent_nil, Foreign, message, find, as_foreign, is_some,
  is_bomb_defence, is_path_validation, is_unsupported_feature, is_transient, is_permanent,
  is_deadline_exceeded, class_throttling, class_5xx, class_timeout, class_network,
}

throttling_codes : List Text
throttling_codes =
    text "ProvisionedThroughputExceededException"
    ∷ text "ProvisionedThroughputExceeded"
    ∷ text "RequestLimitExceeded"
    ∷ text "RequestThrottled"
    ∷ text "Throttling"
    ∷ text "ThrottlingException"
    ∷ text "SlowDown"
    ∷ []

timeout_codes : List Text
timeout_codes = text "RequestTimeout" ∷ text "RequestTimeoutException" ∷ []

-- the first of two answers that is one
abbrev or_else {ℓ} : {A : Type ℓ} → Option A → Option A → Option A
or_else none b = b
or_else (some a) b = some a

-- the class of a smithy API error, by its code
api_class : Option Text → Option Text
unfolding throttling_codes timeout_codes
api_class none = none
api_class (some code) =
    if any (str_eq code) throttling_codes
    then some class_throttling
    else if any (str_eq code) timeout_codes
    then some class_timeout
    else none

-- what the status of an HTTP response decides: a class, that the error is not transient, or nothing
pub data Verdict : Type 0 where
  class : Text → Verdict
  final open_ : Verdict

http_verdict : Option ℤ → Verdict
http_verdict none = open_
http_verdict (some s) =
    if not (ltb_ℤ s (pos 500)) && not (gtb_ℤ s (pos 599))
    then class class_5xx
    else if not (ltb_ℤ s (pos 400)) && not (gtb_ℤ s (pos 499))
    then final
    else open_

abbrev flag : Bool → Option (Unit {0})
flag b = if b then some tt else none

-- errors.As(err, &urlErr) takes the first *url.Error; `Temporary` is asked of that one.
abbrev url_is_temporary : Option Bool → Bool
url_is_temporary none = false
url_is_temporary (some b) = b

module _ (quote : Text → Text) where
  -- the tests after that of the HTTP status
  network_class : Error → Option Text
  network_class err =
      if is_some (is_deadline_exceeded err)
      then some class_timeout
      else if is_some (find (as_foreign (λ f. flag f.net_op)) err)
      then some class_network
      else if url_is_temporary (find (as_foreign (λ f. f.url_temporary)) err)
      then some class_network
      else if contains (message quote err) (text "no such host")
          || contains (message quote err) (text "dial tcp")
      then some class_network
      else none

  after_status : Verdict → Error → Option Text
  after_status (class c) err = some c
  after_status final err = none
  after_status open_ err = network_class err

  -- The errors that are not of the domain.
  unfoldable pub classify_foreign : Error → Option Text
  unfolding api_class http_verdict network_class after_status
  classify_foreign err =
      or_else (api_class (find (as_foreign (λ f. f.api_code)) err))
        (after_status (http_verdict (find (as_foreign (λ f. f.http_status)) err)) err)

  -- Classify of an error that is not nil: its class, if it is transient.
  unfoldable pub classify : Error → Option Text
  unfolding classify_foreign
  classify err =
      if is_some (is_bomb_defence err)
      then none
      else if is_some (is_path_validation err)
      then none
      else if is_some (is_unsupported_feature err)
      then none
      else if is_some (is_permanent err)
      then none
      else or_else (is_transient err) (classify_foreign err)

  unfoldable pub is_retryable : Error → Bool
  unfolding classify
  is_retryable err = is_some (classify err)

  as_class : Option Text → Error → Error
  as_class none err = err
  as_class (some c) err = transient err c

  unfoldable pub as_transient : Option Error → Option Error
  unfolding as_class classify
  as_transient none = none
  as_transient (some err) = some (as_class (classify err) err)

-- time.Duration, in nanoseconds
abbrev pub millisecond : ℤ
millisecond = pos 1000000

unfoldable pub backoff_for : FloatOps → ℤ → RetryConfig → Float64 → ℤ
backoff_for fl attempt cfg jitter =
    let scaled =
      fl.mul (fl.of_int cfg.backoff_base_millis) (fl.pow cfg.backoff_factor (fl.of_int attempt)) in
    let adj = fl.mul scaled (fl.add (fl.of_int (pos 1)) (fl.mul cfg.jitter_fraction jitter)) in
    let clamped = if fl.lt adj (fl.of_int (pos 0)) then fl.of_int (pos 0) else adj in
    fl.to_int (fl.mul clamped (fl.of_int millisecond))

-- What `Do` meets, over a state `S`: ctx.Err(), the random source, and the wait, which answers
-- `true` where the context ended first.
pub record Env (S : Type 0) : Type 0 where
  pub ctx_err : S → Option Error
  pub rand : S → Float64 × S
  pub wait : ℤ → S → Bool × S

module _ (quote : Text → Text) (fl : FloatOps) (cfg : RetryConfig) {S : Type 0} (env : Env S) where
  unfoldable pub compute_backoff : ℕ → S → ℤ × S
  compute_backoff attempt s =
      let (r, s') = env.rand s in
      let j = fl.sub (fl.mul r (fl.of_int (pos 2))) (fl.of_int (pos 1)) in
      (backoff_for fl (pos attempt) cfg j, s')

  module _ (op : S → Option Error × S) where
    -- `left` attempts are left, `attempt` is the next one's number, and `go` makes those after it.
    after_failure : ℕ → ℕ → Error → (S → Option Error × S) → S → Option Error × S
    unfolding compute_backoff
    after_failure left attempt err go s =
        if not (is_retryable quote err)
        then (some err, s)
        else if left == 0
        then (some (permanent err), s)
        else let (delay, s1) = compute_backoff attempt s in
          let (ended, s2) = env.wait delay s1 in if ended then (env.ctx_err s2, s2) else go s2

    after_op : ℕ → ℕ → Option Error × S → (S → Option Error × S) → Option Error × S
    after_op left attempt (none, s) go = (none, s)
    after_op left attempt (some err, s) go = after_failure left attempt err go s

    attempts : ℕ → ℕ → S → Option Error × S
    attempts zero attempt s = (some permanent_nil, s)
    attempts (suc left) attempt s = elim (env.ctx_err s) [
      | some err ↦ (some err, s)
      | none ↦ after_op left attempt (op s) (attempts left (attempt + 1))
    ]

    unfoldable pub do_retry : S → Option Error × S
    unfolding attempts after_op after_failure
    do_retry s = attempts (pos_part cfg.max_attempts) 0 s
