-- ===== src/Retry/Tests.antt =====
-- Runs of the retry loop, and the theorems at a concrete operation.
use zip_extraction.Common.{
  ℕ, zero, suc, ◌+◌, ◌-◌, ◌≤◌, ◌≡◌, inl, refl, true, false, Option, none, some, [], arith,
}
use zip_extraction.Common.Int.{pos}
use zip_extraction.Go.Strings.{Text, text, str_eq, contains}
use zip_extraction.Go.Float.{FloatOps}
use zip_extraction.Config.{RetryConfig}
use zip_extraction.Extraction.Errors.{
  Error, bomb, transient, permanent, plain, message, is_some, is_transient, is_bomb_defence,
  is_permanent, is_path_validation, is_unsupported_feature, is_deadline_exceeded, class_throttling,
  class_timeout,
}
use zip_extraction.Retry.{
  Env, classify, is_retryable, as_transient, compute_backoff, backoff_for, do_retry,
}
use zip_extraction.Retry.Classes.{IsFinal, classify-as_transient}
use zip_extraction.Retry.Attempts.{do_retry-IsFinal}
use zip_extraction.Retry.Recovery.{Recovers, now, later, do_retry-calls, do_retry-Recovers}

abbrev quote : Text → Text
quote s = s

abbrev fl : FloatOps
fl = record {
  of_int = λ a. 0;
  to_int = pos;
  add = ◌+◌;
  sub = ◌-◌;
  mul = λ a b. 0;
  div = λ a b. a;
  pow = λ a b. a;
  lt = λ a b. false;
  print = λ a. [];
  print2 = λ a. [];
}

abbrev cfg : RetryConfig
cfg = record {
  max_attempts = pos 3;
  backoff_base_millis = pos 100;
  backoff_factor = 2;
  jitter_fraction = 0;
}

-- The state counts the calls; the context stays alive.
abbrev env : Env ℕ
env = record { ctx_err = λ s. none; rand = λ s. (0, s); wait = λ d s. (false, s) }

abbrev throttled : Error
throttled = transient (plain (text "slow down")) class_throttling

-- fails twice
abbrev flaky : ℕ → Option Error × ℕ
flaky zero = (some throttled, 1)
flaky (suc zero) = (some throttled, 2)
flaky s = (none, s + 1)

abbrev broken : ℕ → Option Error × ℕ
broken s = (some throttled, s + 1)

opened : Unit {0}
unfolding do_retry classify is_retryable is_transient is_bomb_defence is_path_validation
    is_unsupported_feature is_permanent compute_backoff backoff_for as_transient
    is_deadline_exceeded text str_eq contains message
opened = tt

do_retry_runs :
    (do_retry quote fl cfg env flaky 0 ≡ (none, 3))
    × (do_retry quote fl cfg env broken 0 ≡ (some (permanent throttled), 3))
unfolding opened
do_retry_runs = (refl, refl)

rule3 : IsFinal (transient (bomb (record { rule = 3; reason = [] })) class_timeout)
unfolding opened
rule3 = inl refl

not-IsFinal : ¬ IsFinal throttled
unfolding opened
not-IsFinal h = ground arith

throttled-is_transient : is_some (is_transient throttled) ≡ true
unfolding opened
throttled-is_transient = refl

do_retry-IsFinal_example : IsFinal (permanent throttled)
unfolding opened
do_retry-IsFinal_example =
    do_retry-IsFinal quote fl cfg env broken 0 (permanent throttled) (λ s c e. cc) refl refl

do_retry-calls_example : (do_retry quote fl cfg env broken 0).1 ≤ 3
unfolding opened
do_retry-calls_example =
    do_retry-calls quote fl cfg env broken (λ s. s) 0 (λ s. omega arith) (λ n s. omega arith)

flaky-Recovers : Recovers quote fl cfg env flaky 2 0 0
unfolding opened
flaky-Recovers =
    later throttled refl refl refl refl (later throttled refl refl refl refl (now refl refl))

do_retry-Recovers_example : (do_retry quote fl cfg env flaky 0).0 ≡ none
do_retry-Recovers_example =
    do_retry-Recovers quote fl cfg env flaky 2 0 (omega arith) flaky-Recovers

classify-as_transient_example :
    classify quote (transient throttled class_throttling) ≡ classify quote throttled
unfolding opened
classify-as_transient_example =
    classify-as_transient quote throttled (transient throttled class_throttling) refl
