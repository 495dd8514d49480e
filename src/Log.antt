-- ===== src/Log.antt =====
-- services/zip-extraction/internal/log/logger.go: the filter of sensitive fields, and the logger over
-- zap. A field's value has the type `V`, a zap.Logger the type `Z`, what has been logged the type `S`.
pub mod Laws
mod Tests
use zip_extraction.Common.{
  ℕ, Bool, true, false, ◌&&◌, ◌||◌, Option, none, some, List, [], ◌∷◌, ◌++◌, ◌==◌, if◌then◌else◌,
  any, is_empty,
}
use zip_extraction.Go.Strings.{Text, text, str_eq, contains, to_lower, lower_byte}
use zip_extraction.Extraction.Errors.{Error, plain, wrap, Try, ok, fail, message}

pub record Field (V : Type 0) : Type 0 where
  pub key : Text
  pub value : V

pub record LogConfig : Type 0 where
  pub format : Text
  pub level : Text

unfoldable pub sensitive_key_patterns : List Text
sensitive_key_patterns =
    text "password"
    ∷ text "passwd"
    ∷ text "secret"
    ∷ text "token"
    ∷ text "credential"
    ∷ text "aws_access_key_id"
    ∷ text "aws_secret_access_key"
    ∷ text "session_token"
    ∷ text "api_key"
    ∷ text "authorization"
    ∷ []

-- strings.ToLower as far as ASCII letters come of it: from those, and from U+0130 and U+212A. What
-- has another lower case is left as it is.
unfoldable pub lower_ascii : Text → Text
unfolding lower_byte
lower_ascii [] = []
lower_ascii (a ∷ []) = lower_byte a ∷ []
lower_ascii (a ∷ b ∷ []) =
    if a == 0xc4 && b == 0xb0 then b'i' ∷ [] else lower_byte a ∷ lower_byte b ∷ []
lower_ascii (a ∷ b ∷ c ∷ s) =
    let rest3 = lower_ascii s in
    let rest2 = lower_ascii (c ∷ s) in
    let rest1 = lower_ascii (b ∷ c ∷ s) in
    if a == 0xc4 && b == 0xb0
    then b'i' ∷ rest2
    else if a == 0xe2 && (b == 0x84 && c == 0xaa)
    then b'k' ∷ rest3
    else lower_byte a ∷ rest1

unfoldable pub is_sensitive_key : Text → Bool
unfolding sensitive_key_patterns
is_sensitive_key key = any (λ p. contains (lower_ascii key) p) sensitive_key_patterns

-- `redacted` is the value of zap.String(key, "[REDACTED]").
module _ {V : Type 0} (redacted : V) where
  unfoldable pub filter_field : Field V → Field V
  filter_field f = if is_sensitive_key f.key then record f { value = redacted } else f

  unfoldable pub filter_sensitive : List (Field V) → List (Field V)
  unfolding filter_field
  filter_sensitive [] = []
  filter_sensitive (f ∷ fields) = filter_field f ∷ filter_sensitive fields

-- What zap does: With, the entry of a level, and Sync.
pub data Level : Type 0 where
  debug info warn error : Level

pub record Zap (V Z S : Type 0) : Type 0 where
  pub with_fields : Z → List (Field V) → Z
  pub write : Z → Level → Text → List (Field V) → S → S
  pub sync : Z → S → Option Error × S

module _ {V Z S : Type 0} (zap : Zap V Z S) (redacted : V) where
  -- With, Info, Warn, Error and Debug
  unfoldable pub with_fields : Z → List (Field V) → Z
  with_fields z fields =
      if is_empty fields then z else zap.with_fields z (filter_sensitive redacted fields)

  unfoldable pub log : Level → Z → Text → List (Field V) → S → S
  log level z msg fields = zap.write z level msg (filter_sensitive redacted fields)

  module _ (quote : Text → Text) where
    unfoldable pub is_sync_stdout_benign : Error → Bool
    is_sync_stdout_benign e =
        contains (message quote e) (text "invalid argument")
        || contains (message quote e) (text "inappropriate ioctl")

    propagated : Option Error → Option Error
    propagated none = none
    propagated (some e) = if is_sync_stdout_benign e then none else some e

    -- Sync; the line on the standard error is left out
    unfoldable pub sync : Z → S → Option Error × S
    unfolding propagated
    sync z s = let (err, s') = zap.sync z s in (propagated err, s')

-- the fields of zap.Config that New sets
pub record ZapConfig (L : Type 0) : Type 0 where
  pub development : Bool
  pub capital_color_level : Bool
  pub level : L
  pub output_paths : List Text
  pub error_output_paths : List Text
  pub service : Text
  pub version : Text

-- `parse_level` is zapcore.ParseLevel, `build` the method Build of a zap.Config.
module _ {L Z : Type 0} (quote : Text → Text) (parse_level : Text → Try L)
    (build : ZapConfig L → Try Z) where
  zap_config : Bool → L → Text → ZapConfig L
  zap_config console level version = record {
    development = console;
    capital_color_level = console;
    level = level;
    output_paths = text "stdout" ∷ [];
    error_output_paths = text "stderr" ∷ [];
    service = text "zip-extraction";
    version = version;
  }

  built : Try Z → Try Z
  built (ok z) = ok z
  built (fail e) = fail (wrap (text "log: build zap: ") e)

  with_level : LogConfig → Text → Try L → Try Z
  with_level cfg version (fail e) =
      fail (wrap (text "log: parse level " ++ (quote cfg.level ++ text ": ")) e)
  with_level cfg version (ok level) =
      if str_eq (to_lower cfg.format) (text "console")
      then built (build (zap_config true level version))
      else if is_empty cfg.format || str_eq (to_lower cfg.format) (text "json")
      then built (build (zap_config false level version))
      else fail (
          plain
            (text "log: unsupported format " ++ (quote cfg.format ++ text " (want json|console)")))

  -- New
  unfoldable pub new : LogConfig → Text → Try Z
  unfolding with_level zap_config built
  new cfg version = with_level cfg version (parse_level cfg.level)
