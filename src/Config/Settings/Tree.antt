-- ===== src/Config/Settings/Tree.antt =====
-- The records of AppConfig of config/configuration.ts.
use basket_shared.Prelude.{Bool, Option, List, Text}
use basket_shared.Config.Number.{JsNumber}
use basket_shared.Config.Json.{Json}

pub record AppSettings : Type 0 where
  pub node_env : Text
  pub port : JsNumber
  pub webhook_secret : Option Text
  pub log_level : Text
  pub log_pretty : Bool
  pub transfer_max_attempts : JsNumber
  pub transfer_retry_backoff_ms : JsNumber
  pub ingestion_data_root : Option Text
  pub worker_concurrency : JsNumber
  pub max_payload_bytes : JsNumber

pub record ThrottleSettings : Type 0 where
  pub ttl_ms : JsNumber
  pub limit : JsNumber

pub record AuthSettings : Type 0 where
  pub jwt_secret : Option Text
  pub jwt_expires_in : Text
  pub admin_username : Text
  pub admin_password : Option Text

pub record AlertSettings : Type 0 where
  pub enabled : Bool
  pub webhook_url : Option Text

pub record RecoverySettings : Type 0 where
  pub enabled : Bool
  pub stale_ms : JsNumber
  pub batch_size : JsNumber

pub record RedisSettings : Type 0 where
  pub host : Option Text
  pub port : JsNumber
  pub password : Option Text

pub record DatabaseSettings : Type 0 where
  pub host : Option Text
  pub port : JsNumber
  pub username : Option Text
  pub password : Option Text
  pub database : Option Text
  pub synchronize : Bool
  pub logging : Bool

pub record S3Settings : Type 0 where
  pub endpoint : Option Text
  pub region : Option Text
  pub bucket : Option Text
  pub access_key_id : Option Text
  pub secret_access_key : Option Text
  pub force_path_style : Bool
  pub upload_part_size_bytes : JsNumber
  pub upload_concurrency : JsNumber

pub record PipelineSettings : Type 0 where
  pub max_file_size_bytes : JsNumber
  pub av_enabled : Bool
  pub clamav_host : Text
  pub clamav_port : JsNumber

pub record EncryptionSettings : Type 0 where
  pub enabled : Bool
  pub kek : Option Text

pub record TenancySettings : Type 0 where
  pub default_tenant : Text
  pub map : Json

pub record QuotaSettings : Type 0 where
  pub default_max_bytes : JsNumber
  pub default_max_objects : JsNumber
  pub map : Json

pub record KafkaSettings : Type 0 where
  pub enabled : Bool
  pub brokers : List Text
  pub client_id : Text
  pub events_topic : Text

pub record AppConfig : Type 0 where
  pub app : AppSettings
  pub throttle : ThrottleSettings
  pub auth : AuthSettings
  pub alerts : AlertSettings
  pub recovery : RecoverySettings
  pub retention_audit_days : JsNumber
  pub redis : RedisSettings
  pub database : DatabaseSettings
  pub s3 : S3Settings
  pub pipeline : PipelineSettings
  pub encryption : EncryptionSettings
  pub routing_rules : List Json
  pub tenancy : TenancySettings
  pub quotas : QuotaSettings
  pub kafka : KafkaSettings
