-- ===== src/Retry/Classes.antt =====
-- Which errors are tried again: laws of `classify` and `as_transient`.
use zip_extraction.Common.{◌≡◌, ◌⊎◌, inl, inr, true, false, some, arith, Option-cases}
use zip_extraction.Go.Strings.{Text}
use zip_extraction.Extraction.Errors.{
  Error, transient, is_some, is_bomb_defence, is_path_validation, is_unsupported_feature,
  is_transient, is_permanent,
}
use zip_extraction.Retry.{classify, as_transient, is_retryable}

-- An error of the domain, or one that gave up already, somewhere in the chain of causes.
abbrev pub IsFinal : Error → Type 0
IsFinal e =
    (is_some (is_bomb_defence e) ≡ true)
    ⊎ (is_some (is_path_validation e) ≡ true)
    ⊎ (is_some (is_unsupported_feature e) ≡ true)
    ⊎ (is_some (is_permanent e) ≡ true)

module _ (quote : Text → Text) where
  -- An error is never retried if a bomb-defence, path-validation, unsupported-feature or permanent
  -- error stands anywhere in its chain, whatever else the chain holds.
  pub is_retryable_final : (e : Error) → IsFinal e → is_retryable quote e ≡ false
  unfolding is_retryable classify
  is_retryable_final e h = ground arith

  -- A transient error is retried unless such an error is its cause.
  pub is_retryable_transient :
      (e : Error) → ¬ IsFinal e → is_some (is_transient e) ≡ true → is_retryable quote e ≡ true
  unfolding is_retryable classify
  is_retryable_transient e n h = ground arith

  -- The other way round.
  pub IsFinal-of_is_retryable :
      (e : Error) → is_retryable quote e ≡ false → is_some (is_transient e) ≡ true → IsFinal e
  unfolding is_retryable classify
  IsFinal-of_is_retryable e n h = ground arith

  classify-transient :
      (e : Error) (c : Text) → classify quote e ≡ some c → classify quote (transient e c) ≡ some c
  unfolding classify is_bomb_defence is_path_validation is_unsupported_feature is_permanent
      is_transient
  classify-transient e c h = ground arith

  -- `as_transient` keeps the class of every error, so that what an adapter wraps is retried exactly
  -- if it would have been retried as it was.
  pub classify-as_transient :
      (e e' : Error) → as_transient quote (some e) ≡ some e' → classify quote e' ≡ classify quote e
  unfolding as_transient
  classify-as_transient e e' h = elim (Option-cases (classify quote e)) [
    | inl n ↦ ground (arith, n)
    | inr (c, k) ↦ ground (arith, k, classify-transient e c k)
  ]
