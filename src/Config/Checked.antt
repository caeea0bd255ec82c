-- ===== src/Config/Checked.antt =====
-- What `validateEnv` guarantees of the configuration that is made after it.
pub mod Numbers
use basket_shared.Config.Checked.Numbers.{
  Within, AtLeast, IsGiven, checked_number, AtLeast-of_valid, Within-of_valid, IsGiven-of_valid,
  at_or_above-times,
}
use basket_shared.Prelude.{
  ℕ, ◌*◌, ◌≡◌, refl, sym, subst, true, some, List, [], ◌∷◌, Text, text, text_eq, arith,
}
use basket_shared.Config.Environment.{
  Env, lookup, spread, Property, is_valid, environment_variables, find_property, ClassLibrary,
  valid, or_invalid, assigned, Instance, required_text, between, at_least, at_or_above,
}
use basket_shared.Config.Secrets.{Files, resolve_file_secrets, validate_env}
use basket_shared.Config.Settings.{AppConfig, read_int, configuration}

-- A configuration that was read from checked variables.
pub record IsChecked (c : AppConfig) : Type 0 where
  pub app_port : Within 1 65535 c.app.port
  pub clamav_port : Within 1 65535 c.pipeline.clamav_port
  pub redis_port : Within 1 65535 c.redis.port
  pub database_port : Within 1 65535 c.database.port
  pub max_attempts : Within 1 10 c.app.transfer_max_attempts
  pub concurrency : Within 1 256 c.app.worker_concurrency
  pub batch_size : Within 1 1000 c.recovery.batch_size
  pub upload_concurrency : Within 1 64 c.s3.upload_concurrency
  pub retry_backoff : AtLeast 0 c.app.transfer_retry_backoff_ms
  pub throttle_ttl : AtLeast 1000 c.throttle.ttl_ms
  pub throttle_limit : AtLeast 1 c.throttle.limit
  pub stale : AtLeast 1000 c.recovery.stale_ms
  pub audit_days : AtLeast 0 c.retention_audit_days
  pub payload : at_or_above (1 * 1024) c.app.max_payload_bytes ≡ true
  pub part_size : at_or_above (5 * 1024 * 1024) c.s3.upload_part_size_bytes ≡ true
  pub file_size : at_or_above (0 * 1024 * 1024) c.pipeline.max_file_size_bytes ≡ true
  pub webhook_secret : IsGiven c.app.webhook_secret
  pub jwt_secret : IsGiven c.auth.jwt_secret
  pub admin_password : IsGiven c.auth.admin_password
  pub data_root : IsGiven c.app.ingestion_data_root
  pub bucket : IsGiven c.s3.bucket

module _ (library : ClassLibrary) (plain env : Env)
    (accepted : library.validate_sync environment_variables
        (library.plain_to_instance environment_variables plain)
      ≡ [])
    (agree : (key : Text) → lookup key env ≡ lookup key plain) where
  property_valid :
      (key : Text) (p : Property)
      → find_property key environment_variables ≡ some p
      → is_valid p (assigned p (lookup key env)) ≡ true
  property_valid key p found =
      subst (λ o. is_valid p (assigned p o) ≡ true) (sym (agree key))
        (subst (λ v. is_valid p v ≡ true) (library.converts environment_variables plain key p found)
          (library.reports environment_variables
            (library.plain_to_instance environment_variables plain) key p accepted found))

  setting-Within :
      (key : Text) (low high initial : ℕ)
      → find_property key environment_variables ≡ some (between key low high initial)
      → Within low high (read_int (lookup key env) initial)
  setting-Within key low high initial found =
      Within-of_valid key low high initial (lookup key env) (property_valid key _ found)

  setting-AtLeast :
      (key : Text) (low initial : ℕ)
      → find_property key environment_variables ≡ some (at_least key low initial)
      → AtLeast low (read_int (lookup key env) initial)
  setting-AtLeast key low initial found =
      AtLeast-of_valid key low initial (lookup key env) (property_valid key _ found)

  setting_above :
      (key : Text) (low initial : ℕ)
      → find_property key environment_variables ≡ some (at_least key low initial)
      → at_or_above low (read_int (lookup key env) initial) ≡ true
  setting_above key low initial found =
      (checked_number key low initial (lookup key env) (property_valid key _ found)).1

  setting-IsGiven :
      (key : Text)
      → find_property key environment_variables ≡ some (required_text key)
      → IsGiven (lookup key env)
  setting-IsGiven key found = IsGiven-of_valid key (lookup key env) (property_valid key _ found)

  configuration-IsChecked_of_accepted : IsChecked (configuration env)
  unfolding configuration environment_variables text_eq
  configuration-IsChecked_of_accepted = record {
    app_port = setting-Within (text "APP_PORT") 1 65535 3000 refl;
    clamav_port = setting-Within (text "CLAMAV_PORT") 1 65535 3310 refl;
    redis_port = setting-Within (text "REDIS_PORT") 1 65535 6379 refl;
    database_port = setting-Within (text "POSTGRES_PORT") 1 65535 5432 refl;
    max_attempts = setting-Within (text "TRANSFER_MAX_ATTEMPTS") 1 10 3 refl;
    concurrency = setting-Within (text "WORKER_CONCURRENCY") 1 256 5 refl;
    batch_size = setting-Within (text "RECOVERY_BATCH_SIZE") 1 1000 50 refl;
    upload_concurrency = setting-Within (text "S3_UPLOAD_CONCURRENCY") 1 64 4 refl;
    retry_backoff = setting-AtLeast (text "TRANSFER_RETRY_BACKOFF_MS") 0 1000 refl;
    throttle_ttl = setting-AtLeast (text "THROTTLE_TTL_MS") 1000 60000 refl;
    throttle_limit = setting-AtLeast (text "THROTTLE_LIMIT") 1 100 refl;
    stale = setting-AtLeast (text "RECOVERY_STALE_MS") 1000 900000 refl;
    audit_days = setting-AtLeast (text "AUDIT_RETENTION_DAYS") 0 0 refl;
    payload =
        at_or_above-times 1 1024 _ (omega arith)
          (setting_above (text "MAX_PAYLOAD_SIZE_KB") 1 1024 refl);
    part_size = at_or_above-times (5 * 1024) 1024 _ (omega arith) (
        at_or_above-times 5 1024 _ (omega arith)
          (setting_above (text "S3_UPLOAD_PART_SIZE_MB") 5 8 refl));
    file_size = at_or_above-times (0 * 1024) 1024 _ (omega arith) (
        at_or_above-times 0 1024 _ (omega arith)
          (setting_above (text "MAX_FILE_SIZE_MB") 0 1024 refl));
    webhook_secret = setting-IsGiven (text "WEBHOOK_SECRET") refl;
    jwt_secret = setting-IsGiven (text "JWT_SECRET") refl;
    admin_password = setting-IsGiven (text "ADMIN_PASSWORD") refl;
    data_root = setting-IsGiven (text "INGESTION_DATA_ROOT") refl;
    bucket = setting-IsGiven (text "S3_BUCKET") refl;
  }

no_errors :
    (errors : List Text) (validated instance : Instance)
    → or_invalid errors validated ≡ valid instance
    → errors ≡ []
no_errors [] validated instance h = refl
no_errors (e ∷ errors) validated instance h = cc

-- Where `validateEnv` does not throw, and the configuration is read from an environment that has
-- for every variable the text that was validated, or none where none was: every port is from 1 to
-- 65535, the numbers with two bounds lie within them, those with one bound are natural numbers from
-- it on, the sizes in bytes are not below their bounds, and the secrets, the data root and the
-- bucket are given and not empty.
pub configuration-IsChecked :
    (library : ClassLibrary) (files : Files) (process config settings : Env) (instance : Instance)
    → (validate_env library files process config).1 ≡ valid instance
    → ((key : Text)
        → lookup key settings ≡ lookup key (spread (resolve_file_secrets files process) config))
    → IsChecked (configuration settings)
unfolding validate_env
configuration-IsChecked library files process config settings instance accepted agree =
    let plain = spread (resolve_file_secrets files process) config in
    configuration-IsChecked_of_accepted library plain settings (no_errors _ _ instance accepted)
      agree
