-- ===== src/Config/Load/Laws.antt =====
-- What a configuration that is loaded says.
use zip_extraction.Common.{
  ◌≡◌, ◌∙◌, sym, ap, refl, Bool, false, Option, none, some, [], ◌∷◌, ◌≢◌, is_empty,
}
use zip_extraction.Common.Int.{ℤ, pos, negsuc, InInt64}
use zip_extraction.Go.Strings.{Text, text}
use zip_extraction.Go.Strconv.Laws.{atoi-signed_decimal}
use zip_extraction.Go.Fmt.{decimal, signed_decimal}
use zip_extraction.Go.Fmt.Laws.{decimal-nonempty}
use zip_extraction.Go.Float.{Float64, FloatOps}
use zip_extraction.Extraction.Errors.{Error, Try, ok, fail}
use zip_extraction.Config.{Config}
use zip_extraction.Config.Validate.{validate}
use zip_extraction.Config.Validate.Laws.{IsValid, validate-IsValid}
use zip_extraction.Config.Load.{
  Environment, get_env_default, from_environment, parsed_or, parse_env_int, decoded, opened,
  load_yaml, valid_or, after_yaml, after_port, load,
}

signed_decimal-nonempty : (n : ℤ) → is_empty (signed_decimal n) ≡ false
unfolding signed_decimal
signed_decimal-nonempty (pos n) = filled (decimal n) (decimal-nonempty n)
  where
    filled : (s : Text) → s ≢ [] → is_empty s ≡ false
    filled [] h = absurd (h refl)
    filled (c ∷ s) h = refl
signed_decimal-nonempty (negsuc n) = refl

module _ (quote : Text → Text) where
  -- A variable that holds a printed int64 is read as the number; one that is not set, or is empty,
  -- as the default.
  pub parse_env_int-signed_decimal :
      (env : Environment) (key : Text) (default n : ℤ)
      → InInt64 n
      → (env key ≡ some (signed_decimal n) → parse_env_int quote env key default ≡ ok n)
        × (env key ≡ none → parse_env_int quote env key default ≡ ok default)
        × (env key ≡ some [] → parse_env_int quote env key default ≡ ok default)
  unfolding parse_env_int parsed_or
  parse_env_int-signed_decimal env key default n h = (
    λ e. rw (e, signed_decimal-nonempty n, atoi-signed_decimal quote n h) refl,
    λ e. rw e refl,
    λ e. rw e refl,
  )

  module _ {F : Type 0} (open_file : Text → Try F) (decode : F → Config → Try Config)
      (fl : FloatOps) (le : Float64 → Float64 → Bool) where
    abbrev pub config_path : Environment → Text
    config_path env =
        get_env_default env (text "CONFIG_PATH") (text "/etc/zip-extraction/config.yaml")

    -- The configuration comes from the environment, and then from the file.
    pub record Loaded (env : Environment) (c : Config) : Type 0 where
      pub port : ℤ
      pub file : F
      pub port_read : parse_env_int quote env (text "HTTP_PORT") (pos 8080) ≡ ok port
      pub file_open : open_file (config_path env) ≡ ok file
      pub file_read : decode file (from_environment env port) ≡ ok c

    decoded_ok : (r : Try Config) {c : Config} → decoded quote open_file decode r ≡ ok c → r ≡ ok c
    unfolding decoded
    decoded_ok (ok c') h = h
    decoded_ok (fail e) h = cc

    opened_ok :
        (c0 : Config) (r : Try F) {c : Config}
        → opened quote open_file decode c0 r ≡ ok c
        → (f : F) × (r ≡ ok f) × (decode f c0 ≡ ok c)
    unfolding opened
    opened_ok c0 (ok f) h = (f, refl, decoded_ok (decode f c0) h)
    opened_ok c0 (fail e) h = cc

    valid_or_ok :
        (c0 : Config) (o : Option Error) {c : Config}
        → valid_or quote open_file decode fl le c0 o ≡ ok c
        → (c0 ≡ c) × (o ≡ none)
    unfolding valid_or
    valid_or_ok c0 none h = (cc, refl)
    valid_or_ok c0 (some e) h = cc

    after_yaml_ok :
        (path : Text) (r : Try Config) {c : Config}
        → after_yaml quote open_file decode fl le path r ≡ ok c
        → (r ≡ ok c) × (validate quote fl le c ≡ none)
    unfolding after_yaml
    after_yaml_ok path (fail e) h = cc
    after_yaml_ok path (ok c0) h =
        let (same, passed) = valid_or_ok c0 (validate quote fl le c0) h in
        (ap ok same, ap (validate quote fl le) (sym same) ∙ passed)

    after_port_ok :
        (env : Environment) (r : Try ℤ) {c : Config}
        → after_port quote open_file decode fl le env r ≡ ok c
        → (port : ℤ) × (r ≡ ok port)
          × (load_yaml quote open_file decode (config_path env) (from_environment env port) ≡ ok c)
          × (validate quote fl le c ≡ none)
    unfolding after_port
    after_port_ok env (fail e) h = cc
    after_port_ok env (ok port) h =
        let (read, passed) = after_yaml_ok (config_path env) _ h in (port, refl, read, passed)

    -- A configuration that Load returns is what the YAML file makes of the environment, and it is
    -- valid: it has positive limits, a port in range, and names for the queue, the bucket and the
    -- table.
    pub load-IsValid :
        (env : Environment) (c : Config)
        → load quote open_file decode fl le env ≡ ok c
        → IsValid c × Loaded env c
    unfolding load load_yaml
    load-IsValid env c h =
        let (port, port_read, read, passed) =
          after_port_ok env (parse_env_int quote env (text "HTTP_PORT") (pos 8080)) h in
        let (file, file_open, file_read) =
          opened_ok (from_environment env port) (open_file (config_path env)) read in
        (
          validate-IsValid quote fl le c passed,
          record {
            port = port;
            file = file;
            port_read = port_read;
            file_open = file_open;
            file_read = file_read;
          },
        )
