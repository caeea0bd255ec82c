-- ===== src/Config/Environment/Variables.antt =====
-- The class EnvironmentVariables of config/env.validation.ts: each property with its conversion, its
-- default and its constraints.
use basket_shared.Prelude.{
  ◌++◌, ℕ, Bool, true, false, List, [], ◌∷◌, any, Text, text, text_eq, lower,
}
use basket_shared.Config.Number.{JsNumber, trim, whole_number}

-- The values that properties of the class take.
pub data Value : Type 0 where
  undefined : Value
  str : Text → Value
  num : JsNumber → Value
  bool : Bool → Value

-- `['true', '1', 'yes', 'on']`
abbrev pub truthy : List Text
truthy = text "true" ∷ text "1" ∷ text "yes" ∷ text "on" ∷ []

unfoldable pub to_boolean : Value → Bool
unfolding trim
to_boolean (bool b) = b
to_boolean (str s) = any (λ t. text_eq t (lower (trim s))) truthy
to_boolean _ = false

-- `@Type(() => Number)`, `@Transform(toBoolean)`, or neither.
pub data Coercion : Type 0 where
  as_it_is to_number by_to_boolean : Coercion

pub data Constraint : Type 0 where
  is_int is_string is_not_empty is_boolean : Constraint
  min max : ℕ → Constraint
  is_in : List Text → Constraint

pub record Property : Type 0 where
  pub key : Text
  pub coercion : Coercion
  pub is_optional : Bool
  pub initial : Value
  pub constraints : List Constraint

abbrev pub required_text : Text → Property
required_text key = record {
  key = key;
  coercion = as_it_is;
  is_optional = false;
  initial = undefined;
  constraints = is_string ∷ is_not_empty ∷ [];
}

abbrev pub text_with : Text → Text → Property
text_with key initial = record {
  key = key;
  coercion = as_it_is;
  is_optional = false;
  initial = str initial;
  constraints = is_string ∷ is_not_empty ∷ [];
}

abbrev pub optional_text : Text → Property
optional_text key = record {
  key = key;
  coercion = as_it_is;
  is_optional = true;
  initial = undefined;
  constraints = is_string ∷ [];
}

abbrev pub flag : Text → Bool → Property
flag key initial = record {
  key = key;
  coercion = by_to_boolean;
  is_optional = false;
  initial = bool initial;
  constraints = is_boolean ∷ [];
}

abbrev pub at_least : Text → ℕ → ℕ → Property
at_least key low initial = record {
  key = key;
  coercion = to_number;
  is_optional = false;
  initial = num (whole_number initial);
  constraints = is_int ∷ min low ∷ [];
}

abbrev pub between : Text → ℕ → ℕ → ℕ → Property
between key low high initial = record {
  key = key;
  coercion = to_number;
  is_optional = false;
  initial = num (whole_number initial);
  constraints = is_int ∷ min low ∷ max high ∷ [];
}

abbrev pub node_envs : List Text
node_envs = text "development" ∷ text "production" ∷ text "test" ∷ []

abbrev pub log_levels : List Text
log_levels =
    text "fatal"
    ∷ text "error"
    ∷ text "warn"
    ∷ text "info"
    ∷ text "debug"
    ∷ text "trace"
    ∷ text "silent"
    ∷ []

abbrev node_env_property : Property
node_env_property = record {
  key = text "NODE_ENV";
  coercion = as_it_is;
  is_optional = true;
  initial = str (text "development");
  constraints = is_in node_envs ∷ [];
}

abbrev log_level_property : Property
log_level_property = record {
  key = text "LOG_LEVEL";
  coercion = as_it_is;
  is_optional = false;
  initial = str (text "info");
  constraints = is_in log_levels ∷ [];
}

unfoldable pub app_variables : List Property
app_variables =
    node_env_property
    ∷ between (text "APP_PORT") 1 65535 3000
    ∷ required_text (text "WEBHOOK_SECRET")
    ∷ required_text (text "JWT_SECRET")
    ∷ text_with (text "JWT_EXPIRES_IN") (text "1h")
    ∷ text_with (text "ADMIN_USERNAME") (text "admin")
    ∷ required_text (text "ADMIN_PASSWORD")
    ∷ log_level_property
    ∷ flag (text "LOG_PRETTY") false
    ∷ between (text "TRANSFER_MAX_ATTEMPTS") 1 10 3
    ∷ at_least (text "TRANSFER_RETRY_BACKOFF_MS") 0 1000
    ∷ required_text (text "INGESTION_DATA_ROOT")
    ∷ at_least (text "THROTTLE_TTL_MS") 1000 60000
    ∷ at_least (text "THROTTLE_LIMIT") 1 100
    ∷ at_least (text "MAX_PAYLOAD_SIZE_KB") 1 1024
    ∷ between (text "WORKER_CONCURRENCY") 1 256 5
    ∷ []

unfoldable pub pipeline_variables : List Property
pipeline_variables =
    at_least (text "MAX_FILE_SIZE_MB") 0 1024
    ∷ flag (text "AV_ENABLED") false
    ∷ flag (text "ENCRYPTION_ENABLED") false
    ∷ optional_text (text "ENCRYPTION_KEK")
    ∷ text_with (text "CLAMAV_HOST") (text "clamav")
    ∷ between (text "CLAMAV_PORT") 1 65535 3310
    ∷ []

unfoldable pub alert_variables : List Property
alert_variables = flag (text "ALERTS_ENABLED") false ∷ optional_text (text "ALERT_WEBHOOK_URL") ∷ []

unfoldable pub recovery_variables : List Property
recovery_variables =
    flag (text "RECOVERY_ENABLED") true
    ∷ at_least (text "RECOVERY_STALE_MS") 1000 900000
    ∷ between (text "RECOVERY_BATCH_SIZE") 1 1000 50
    ∷ at_least (text "AUDIT_RETENTION_DAYS") 0 0
    ∷ []

unfoldable pub redis_variables : List Property
redis_variables =
    required_text (text "REDIS_HOST")
    ∷ between (text "REDIS_PORT") 1 65535 6379
    ∷ optional_text (text "REDIS_PASSWORD")
    ∷ []

unfoldable pub database_variables : List Property
database_variables =
    required_text (text "POSTGRES_HOST")
    ∷ between (text "POSTGRES_PORT") 1 65535 5432
    ∷ required_text (text "POSTGRES_USER")
    ∷ required_text (text "POSTGRES_PASSWORD")
    ∷ required_text (text "POSTGRES_DB")
    ∷ flag (text "DB_SYNCHRONIZE") false
    ∷ flag (text "DB_LOGGING") false
    ∷ []

unfoldable pub s3_variables : List Property
s3_variables =
    optional_text (text "S3_ENDPOINT")
    ∷ required_text (text "S3_REGION")
    ∷ required_text (text "S3_BUCKET")
    ∷ required_text (text "S3_ACCESS_KEY_ID")
    ∷ required_text (text "S3_SECRET_ACCESS_KEY")
    ∷ flag (text "S3_FORCE_PATH_STYLE") true
    ∷ at_least (text "S3_UPLOAD_PART_SIZE_MB") 5 8
    ∷ between (text "S3_UPLOAD_CONCURRENCY") 1 64 4
    ∷ []

unfoldable pub environment_variables : List Property
unfolding app_variables pipeline_variables alert_variables recovery_variables redis_variables
    database_variables s3_variables
environment_variables =
    app_variables
    ++ (pipeline_variables
        ++ (alert_variables
            ++ (recovery_variables ++ (redis_variables ++ (database_variables ++ s3_variables)))))
