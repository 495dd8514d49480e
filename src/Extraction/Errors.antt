-- ===== src/Extraction/Errors.antt =====
-- services/zip-extraction/internal/extraction/errors.go: the typed errors and the functions that
-- look for them in the chain of causes.
use zip_extraction.Common.{ℕ, Bool, true, false, Option, none, some, [], ◌++◌, if◌then◌else◌}
use zip_extraction.Common.Int.{ℤ}
use zip_extraction.Go.Strings.{Text, text}
use zip_extraction.Go.Fmt.{decimal}

pub record BombDefenceError : Type 0 where
  pub rule : ℕ
  pub reason : Text

pub record PathValidationError : Type 0 where
  pub path : Text
  pub reason : Text

pub record UnsupportedFeatureError : Type 0 where
  pub feature : Text

-- An error of another package, by its message and by what `errors.As` and `errors.Is` answer on it:
-- the code of a smithy API error, the status of an HTTP response, whether it is
-- `context.DeadlineExceeded`, `context.Canceled`, a `*net.OpError`, a `*url.Error` (and temporary),
-- or DynamoDB's `ConditionalCheckFailedException`.
pub record Foreign : Type 0 where
  pub message : Text
  pub api_code : Option Text
  pub http_status : Option ℤ
  pub deadline : Bool
  pub canceled : Bool
  pub net_op : Bool
  pub url_temporary : Option Bool
  pub conditional_check : Bool

-- Go's `error`, where it is not nil. `permanent_nil` is a `PermanentError` with a nil cause, and
-- `wrap` the result of `fmt.Errorf("<prefix>%w", err)`; `eof` and `unexpected_eof` are io.EOF and
-- io.ErrUnexpectedEOF.
pub data Error : Type 0 where
  bomb : BombDefenceError → Error
  path : PathValidationError → Error
  unsupported : UnsupportedFeatureError → Error
  transient : Error → Text → Error
  permanent : Error → Error
  permanent_nil : Error
  wrap : Text → Error → Error
  plain : Text → Error
  eof : Error
  unexpected_eof : Error
  foreign : Foreign → Error

-- A result with an error: `ok` where the error is nil.
pub data Try {ℓ} (A : Type ℓ) : Type ℓ where
  ok : A → Try A
  fail : Error → Try A

abbrev no_match : Foreign
no_match = record {
  message = [];
  api_code = none;
  http_status = none;
  deadline = false;
  canceled = false;
  net_op = false;
  url_temporary = none;
  conditional_check = false;
}

-- context.DeadlineExceeded and context.Canceled
abbrev pub deadline_exceeded : Error
deadline_exceeded =
    foreign (record no_match { message = text "context deadline exceeded"; deadline = true })

abbrev pub context_canceled : Error
context_canceled = foreign (record no_match { message = text "context canceled"; canceled = true })

-- err.Error(), for a printer `quote` of the verb %q
module _ (quote : Text → Text) where
  unfoldable pub message : Error → Text
  message (bomb e) = text "bomb-defence rule " ++ (decimal e.rule ++ (text ": " ++ e.reason))
  message (path e) =
      text "path validation: " ++ (e.reason ++ (text " (path=" ++ (quote e.path ++ text ")")))
  message (unsupported e) = text "unsupported zip feature: " ++ e.feature
  message (transient cause class) = text "transient (" ++ (class ++ (text "): " ++ message cause))
  message (permanent cause) = text "permanent: " ++ message cause
  message permanent_nil = text "permanent: <nil>"
  message (wrap prefix e) = prefix ++ message e
  message (plain s) = s
  message eof = text "EOF"
  message unexpected_eof = text "unexpected EOF"
  message (foreign f) = f.message

-- errors.As: the first error of the chain that `match` takes
unfoldable pub find {ℓ} : {A : Type ℓ} → (Error → Option A) → Error → Option A
find match (transient cause class) = elim (match (transient cause class)) [
  | none ↦ find match cause
  | some a ↦ some a
]
find match (permanent cause) = elim (match (permanent cause)) [
  | none ↦ find match cause
  | some a ↦ some a
]
find match (wrap prefix e) = elim (match (wrap prefix e)) [ none ↦ find match e | some a ↦ some a ]
find match e = match e

abbrev as_bomb : Error → Option BombDefenceError
as_bomb (bomb e) = some e
as_bomb _ = none

abbrev as_path : Error → Option PathValidationError
as_path (path e) = some e
as_path _ = none

abbrev as_unsupported : Error → Option UnsupportedFeatureError
as_unsupported (unsupported e) = some e
as_unsupported _ = none

-- of a `*TransientError` the class is used
abbrev as_transient : Error → Option Text
as_transient (transient cause class) = some class
as_transient _ = none

abbrev as_permanent : Error → Option (Unit {0})
as_permanent (permanent cause) = some tt
as_permanent permanent_nil = some tt
as_permanent _ = none

abbrev pub as_foreign {ℓ} : {A : Type ℓ} → (Foreign → Option A) → Error → Option A
as_foreign answer (foreign f) = answer f
as_foreign answer _ = none

unfoldable pub is_bomb_defence : Error → Option BombDefenceError
unfolding find
is_bomb_defence = find as_bomb

unfoldable pub is_path_validation : Error → Option PathValidationError
unfolding find
is_path_validation = find as_path

unfoldable pub is_unsupported_feature : Error → Option UnsupportedFeatureError
unfolding find
is_unsupported_feature = find as_unsupported

unfoldable pub is_transient : Error → Option Text
unfolding find
is_transient = find as_transient

unfoldable pub is_permanent : Error → Option (Unit {0})
unfolding find
is_permanent = find as_permanent

abbrev flag : Bool → Option (Unit {0})
flag b = if b then some tt else none

-- errors.Is(err, context.DeadlineExceeded), errors.Is(err, context.Canceled)
unfoldable pub is_deadline_exceeded : Error → Option (Unit {0})
unfolding find
is_deadline_exceeded = find (as_foreign (λ f. flag f.deadline))

unfoldable pub is_canceled : Error → Option (Unit {0})
unfolding find
is_canceled = find (as_foreign (λ f. flag f.canceled))

-- errors.Is(err, io.EOF), errors.Is(err, io.ErrUnexpectedEOF)
abbrev as_eof : Error → Option (Unit {0})
as_eof eof = some tt
as_eof _ = none

abbrev as_unexpected_eof : Error → Option (Unit {0})
as_unexpected_eof unexpected_eof = some tt
as_unexpected_eof _ = none

unfoldable pub is_eof : Error → Option (Unit {0})
unfolding find
is_eof = find as_eof

unfoldable pub is_unexpected_eof : Error → Option (Unit {0})
unfolding find
is_unexpected_eof = find as_unexpected_eof

abbrev pub is_some {ℓ} : {A : Type ℓ} → Option A → Bool
is_some none = false
is_some (some a) = true

-- the reasons of a PathValidationError
abbrev pub reason_traversal : Text
reason_traversal = text "path-traversal"

abbrev pub reason_absolute : Text
reason_absolute = text "absolute-path"

abbrev pub reason_empty : Text
reason_empty = text "empty-name"

abbrev pub reason_invalid_name : Text
reason_invalid_name = text "invalid-filename"

-- the classes of a TransientError
abbrev pub class_throttling : Text
class_throttling = text "throttling"

abbrev pub class_5xx : Text
class_5xx = text "5xx"

abbrev pub class_timeout : Text
class_timeout = text "timeout"

abbrev pub class_network : Text
class_network = text "network"
