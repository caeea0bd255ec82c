-- ===== src/Config/Settings.antt =====
-- nestjs-app/src/config/configuration.ts: the configuration tree, and how it is read from
-- `process.env`. A variable that the source takes `as string` may be missing all the same. What is
-- parsed from JSON is cast, not checked, so that it is kept as it was parsed.
pub mod Tree
pub mod Parsing
pub use Tree.{AppConfig}
use basket_shared.Config.Settings.Tree.{
  AppSettings, ThrottleSettings, AuthSettings, AlertSettings, RecoverySettings, RedisSettings,
  DatabaseSettings, S3Settings, PipelineSettings, EncryptionSettings, TenancySettings,
  QuotaSettings, KafkaSettings,
}
use basket_shared.Prelude.{
  ℕ, Bool, true, false, Option, none, some, List, [], ◌∷◌, ◌==◌, any, map, or_else, if◌then◌else◌,
  Text, text, text_eq, is_empty, lower,
}
use basket_shared.Config.Number.{JsNumber, number, trim, whole_number, is_finite, times}
use basket_shared.Config.Environment.{Env, lookup, truthy}
use basket_shared.Config.Json.{
  Json, array, object, Items, no_items, item, no_members, parse_json, is_object,
}

abbrev pub list_of : Items → List Json
list_of no_items = []
list_of (item v items) = v ∷ list_of items

abbrev pub rules_of : Option Json → List Json
rules_of (some (array items)) = list_of items
rules_of _ = []

abbrev pub blank : Option Text → Bool
blank none = true
blank (some s) = is_empty s

unfoldable pub parse_routing_rules : Option Text → List Json
unfolding parse_json
parse_routing_rules none = []
parse_routing_rules (some raw) = if is_empty raw then [] else rules_of (parse_json raw)

-- `{}`, where the text is missing, is no JSON, or is neither an object nor an array.
abbrev pub or_no_members : Option Json → Json
or_no_members none = object no_members
or_no_members (some v) = if is_object v then v else object no_members

-- `parseJson` and `parseJsonMap`, which differ in their types only.
unfoldable pub parse_json_map : Option Text → Json
unfolding parse_json
parse_json_map none = object no_members
parse_json_map (some raw) =
    if is_empty raw then object no_members else or_no_members (parse_json raw)

-- `bool`
unfoldable pub read_bool : Option Text → Bool → Bool
read_bool none fallback = fallback
read_bool (some v) fallback = any (λ t. text_eq t (lower v)) truthy

-- `int`. `Number(undefined)` is NaN.
unfoldable pub read_int : Option Text → ℕ → JsNumber
unfolding number
read_int none fallback = whole_number fallback
read_int (some v) fallback = let n = number v in if is_finite n then n else whole_number fallback

-- `v || undefined`
unfoldable pub non_empty : Option Text → Option Text
non_empty none = none
non_empty (some s) = if is_empty s then none else some s

-- `a || b`
abbrev pub either_text : Option Text → Option Text → Option Text
either_text a b = if blank a then b else a

-- `s.split(',')`: the text up to the first comma, and the others.
abbrev pub push_char : ℕ → Text × List Text → Text × List Text
push_char c (first, others) = if c == b',' then ([], first ∷ others) else (c ∷ first, others)

unfoldable pub split_commas : Text → Text × List Text
split_commas [] = ([], [])
split_commas (c ∷ s) = push_char c (split_commas s)

abbrev pub broker_list : Text → List Text
broker_list s = let (first, others) = split_commas s in map trim (first ∷ others)

module _ (env : Env) where
  abbrev pub var : Text → Option Text
  var key = lookup key env

  abbrev pub app_settings : AppSettings
  app_settings = record {
    node_env = or_else (var (text "NODE_ENV")) (text "development");
    port = read_int (var (text "APP_PORT")) 3000;
    webhook_secret = var (text "WEBHOOK_SECRET");
    log_level = or_else (var (text "LOG_LEVEL")) (text "info");
    log_pretty = read_bool (var (text "LOG_PRETTY")) false;
    transfer_max_attempts = read_int (var (text "TRANSFER_MAX_ATTEMPTS")) 3;
    transfer_retry_backoff_ms = read_int (var (text "TRANSFER_RETRY_BACKOFF_MS")) 1000;
    ingestion_data_root = var (text "INGESTION_DATA_ROOT");
    worker_concurrency = read_int (var (text "WORKER_CONCURRENCY")) 5;
    max_payload_bytes = times (read_int (var (text "MAX_PAYLOAD_SIZE_KB")) 1024) 1024;
  }

  abbrev pub throttle_settings : ThrottleSettings
  throttle_settings = record {
    ttl_ms = read_int (var (text "THROTTLE_TTL_MS")) 60000;
    limit = read_int (var (text "THROTTLE_LIMIT")) 100;
  }

  abbrev pub auth_settings : AuthSettings
  auth_settings = record {
    jwt_secret = var (text "JWT_SECRET");
    jwt_expires_in = or_else (var (text "JWT_EXPIRES_IN")) (text "1h");
    admin_username = or_else (var (text "ADMIN_USERNAME")) (text "admin");
    admin_password = var (text "ADMIN_PASSWORD");
  }

  abbrev pub alert_settings : AlertSettings
  alert_settings = record {
    enabled = read_bool (var (text "ALERTS_ENABLED")) false;
    webhook_url = non_empty (var (text "ALERT_WEBHOOK_URL"));
  }

  abbrev pub recovery_settings : RecoverySettings
  recovery_settings = record {
    enabled = read_bool (var (text "RECOVERY_ENABLED")) true;
    stale_ms = read_int (var (text "RECOVERY_STALE_MS")) 900000;
    batch_size = read_int (var (text "RECOVERY_BATCH_SIZE")) 50;
  }

  abbrev pub redis_settings : RedisSettings
  redis_settings = record {
    host = var (text "REDIS_HOST");
    port = read_int (var (text "REDIS_PORT")) 6379;
    password = non_empty (var (text "REDIS_PASSWORD"));
  }

  abbrev pub database_settings : DatabaseSettings
  database_settings = record {
    host = var (text "POSTGRES_HOST");
    port = read_int (var (text "POSTGRES_PORT")) 5432;
    username = either_text (var (text "APP_DB_USER")) (var (text "POSTGRES_USER"));
    password = var (text "POSTGRES_PASSWORD");
    database = var (text "POSTGRES_DB");
    synchronize = read_bool (var (text "DB_SYNCHRONIZE")) false;
    logging = read_bool (var (text "DB_LOGGING")) false;
  }

  abbrev pub s3_settings : S3Settings
  s3_settings = record {
    endpoint = non_empty (var (text "S3_ENDPOINT"));
    region = var (text "S3_REGION");
    bucket = var (text "S3_BUCKET");
    access_key_id = var (text "S3_ACCESS_KEY_ID");
    secret_access_key = var (text "S3_SECRET_ACCESS_KEY");
    force_path_style = read_bool (var (text "S3_FORCE_PATH_STYLE")) true;
    upload_part_size_bytes =
        times (times (read_int (var (text "S3_UPLOAD_PART_SIZE_MB")) 8) 1024) 1024;
    upload_concurrency = read_int (var (text "S3_UPLOAD_CONCURRENCY")) 4;
  }

  abbrev pub pipeline_settings : PipelineSettings
  pipeline_settings = record {
    max_file_size_bytes = times (times (read_int (var (text "MAX_FILE_SIZE_MB")) 1024) 1024) 1024;
    av_enabled = read_bool (var (text "AV_ENABLED")) false;
    clamav_host = or_else (var (text "CLAMAV_HOST")) (text "clamav");
    clamav_port = read_int (var (text "CLAMAV_PORT")) 3310;
  }

  abbrev pub encryption_settings : EncryptionSettings
  encryption_settings = record {
    enabled = read_bool (var (text "ENCRYPTION_ENABLED")) false;
    kek = non_empty (var (text "ENCRYPTION_KEK"));
  }

  abbrev pub tenancy_settings : TenancySettings
  tenancy_settings = record {
    default_tenant = or_else (var (text "DEFAULT_TENANT")) (text "default");
    map = parse_json_map (var (text "TENANT_MAP"));
  }

  abbrev pub quota_settings : QuotaSettings
  quota_settings = record {
    default_max_bytes = read_int (var (text "QUOTA_DEFAULT_MAX_BYTES")) 0;
    default_max_objects = read_int (var (text "QUOTA_DEFAULT_MAX_OBJECTS")) 0;
    map = parse_json_map (var (text "TENANT_QUOTAS"));
  }

  abbrev pub kafka_settings : KafkaSettings
  kafka_settings = record {
    enabled = read_bool (var (text "KAFKA_ENABLED")) false;
    brokers = broker_list (or_else (var (text "KAFKA_BROKERS")) (text "kafka:9092"));
    client_id = or_else (var (text "KAFKA_CLIENT_ID")) (text "s3-syncbridge");
    events_topic = or_else (var (text "KAFKA_EVENTS_TOPIC")) (text "syncbridge.events");
  }

  unfoldable pub configuration : AppConfig
  configuration = record {
    app = app_settings;
    throttle = throttle_settings;
    auth = auth_settings;
    alerts = alert_settings;
    recovery = recovery_settings;
    retention_audit_days = read_int (var (text "AUDIT_RETENTION_DAYS")) 0;
    redis = redis_settings;
    database = database_settings;
    s3 = s3_settings;
    pipeline = pipeline_settings;
    encryption = encryption_settings;
    routing_rules = parse_routing_rules (var (text "ROUTING_RULES"));
    tenancy = tenancy_settings;
    quotas = quota_settings;
    kafka = kafka_settings;
  }
