-- ===== src/World/Entities.antt =====
-- The entities of TypeORM and the payloads of the BullMQ queues: file-transfer.entity.ts,
-- outbox-event.entity.ts, tenant-usage.entity.ts, event-subscription.entity.ts, user.entity.ts,
-- role.enum.ts, transfer-queue.ts, webhook-queue.ts, jwt.strategy.ts.
-- A UUID is a number of 128 bits, a date a number of milliseconds, and a `bigint` column, which
-- the driver hands over in decimal, the number itself.
use basket_shared.Prelude.{ℕ, Bool, true, false, Option, List, Text}

pub data TransferStatus : Type 0 where
  pending processing success failed : TransferStatus

-- The texts of errors, with the values that the code puts into them.
pub data Message : Type 0 where
  source_unreadable : (path : Text) → Message
  file_empty : Message
  exceeds_limit : (size limit : ℕ) → Message
  virus_detected : (signature : Text) → Message
  storage_quota : (tenant : Text) (stored extra limit : ℕ) → Message
  object_quota : (tenant : Text) (count limit : ℕ) → Message
  integrity_failed : (etag md5 : Text) → Message
  unexpected_reply : (reply : Text) → Message
  service_failed : Message
  transfer_missing : (id : ℕ) → Message
  already_succeeded : (id : ℕ) → Message
  no_stored_object : (id : ℕ) → Message
  batch_of_success : Message
  recovered_exhausted : (attempts : ℕ) → Message
  exhausted : (attempts : ℕ) (last : Message) → Message
  user_exists : (username : Text) → Message
  invalid_credentials : Message
  requires_role : Message
  subscription_missing : (id : ℕ) → Message
  invalid_token : Message
  key_refused : Message
  subscriber_returned : (status : ℕ) → Message

pub record FileTransfer : Type 0 where
  pub id : ℕ
  pub idempotency_key : Text
  pub filename : Text
  pub virtual_path : Text
  pub source_path : Text
  pub object_key : Option Text
  pub bucket : Text
  pub size_bytes : ℕ
  pub etag : Option Text
  pub checksum_sha256 : Option Text
  pub encrypted : Bool
  pub wrapped_dek : Option Text
  pub status : TransferStatus
  pub attempts : ℕ
  pub error_log : Option Message
  pub tenant_id : Text
  pub username : Text
  pub protocol : Option Text
  pub session_id : Option Text
  pub created_at : ℕ
  pub updated_at : ℕ

-- A W3C trace-context carrier.
abbrev pub Carrier : Type 0
Carrier = List (Text × Text)

pub record TransferJobData : Type 0 where
  pub transfer_id : ℕ
  pub carrier : Option Carrier

pub record DeadLetterJobData : Type 0 where
  pub transfer_id : ℕ
  pub reason : Message

pub data OutboxStatus : Type 0 where
  pending published : OutboxStatus

pub record OutboxEvent : Type 0 where
  pub id : ℕ
  pub aggregate_id : ℕ
  pub payload : TransferJobData
  pub status : OutboxStatus
  pub attempts : ℕ
  pub created_at : ℕ
  pub published_at : Option ℕ

pub record TenantUsage : Type 0 where
  pub tenant_id : Text
  pub object_count : ℕ
  pub bytes_stored : ℕ
  pub updated_at : ℕ

pub data EventType : Type 0 where
  transfer_completed transfer_failed : EventType

-- What an event carries besides its type, transfer and tenant.
pub data EventData : Type 0 where
  completed : (bucket object_key : Text) (size_bytes : ℕ) (encrypted : Bool) → EventData
  failed : (reason : Message) → EventData

pub record TransferEvent : Type 0 where
  pub type : EventType
  pub transfer_id : ℕ
  pub tenant_id : Text
  pub payload : EventData

pub record EventSubscription : Type 0 where
  pub id : ℕ
  pub tenant_id : Text
  pub url : Text
  pub events : List EventType
  pub secret : Text
  pub active : Bool
  pub created_at : ℕ

pub record WebhookDeliveryJob : Type 0 where
  pub subscription_id : ℕ
  pub url : Text
  pub secret : Text
  pub event : TransferEvent

pub record FailureAlert : Type 0 where
  pub transfer_id : ℕ
  pub filename : Text
  pub reason : Message

pub data Role : Type 0 where
  admin operator viewer : Role

pub record User : Type 0 where
  pub id : ℕ
  pub username : Text
  pub password_hash : Text
  pub tenant_id : Text
  pub roles : List Role

pub record AuthUser : Type 0 where
  pub user_id : ℕ
  pub username : Text
  pub roles : List Role
  pub tenant_id : Text

-- The Boolean tests by which the code compares enum values.
abbrev pub is_success : TransferStatus → Bool
is_success success = true
is_success _ = false

abbrev pub status_eq : TransferStatus → TransferStatus → Bool
status_eq pending pending = true
status_eq processing processing = true
status_eq success success = true
status_eq failed failed = true
status_eq _ _ = false

abbrev pub event_eq : EventType → EventType → Bool
event_eq transfer_completed transfer_completed = true
event_eq transfer_failed transfer_failed = true
event_eq _ _ = false

abbrev pub role_eq : Role → Role → Bool
role_eq admin admin = true
role_eq operator operator = true
role_eq viewer viewer = true
role_eq _ _ = false
