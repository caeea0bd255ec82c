-- ===== src/World/State.antt =====
-- The whole state, and the services outside the program as seen by its calls: call number `n`
-- finds the fate `fate n`, and reads the answers that stand at `n`.
use basket_shared.Prelude.{ℕ, suc, Bool, Option, List, Text}
use basket_shared.World.Entities.{
  FileTransfer, TransferJobData, DeadLetterJobData, OutboxEvent, TenantUsage, EventSubscription,
  TransferEvent, WebhookDeliveryJob, FailureAlert, User,
}

-- How a call of a service ends: as asked; refused with nothing done; done, with the answer lost
-- on the way, so that the caller sees an error; or not answered at all, since the process has died
-- before (`crash`) or after (`killed`) the service did what it was asked.
pub data Fate : Type 0 where
  fine refused lost crash killed : Fate

pub record FileStat : Type 0 where
  pub is_file : Bool
  pub size : ℕ

-- What the services answer, by the number of the call.
pub record Services : Type 0 where
  pub fate : ℕ → Fate
  pub clock : ℕ → ℕ
  pub uuid : ℕ → ℕ
  pub stat : ℕ → Text → Option FileStat  -- the shared volume
  pub md5 : ℕ → Text → Text  -- of the file at a path, in hex
  pub sha256 : ℕ → Text → Text
  pub scan : ℕ → Text → Text  -- what clamd replies for the file at a path
  pub put_etag : ℕ → Option Text  -- the ETag header that S3 returns
  pub has_bucket : ℕ → Text → Bool
  pub wrapped_dek : ℕ → Text  -- the wrapped form of a random key
  pub http_status : ℕ → ℕ

pub record Db : Type 0 where
  pub transfers : List FileTransfer
  pub outbox : List OutboxEvent
  pub usage : List TenantUsage
  pub subscriptions : List EventSubscription
  pub users : List User

-- An object in the bucket, with what is known of its body.
pub record StoredObject : Type 0 where
  pub bucket : Text
  pub key : Text
  pub source_path : Text
  pub content_type : Text
  pub sealed : Bool
  pub multipart : Bool

pub record Metrics : Type 0 where
  pub in_flight : ℕ
  pub succeeded : ℕ
  pub failures : ℕ
  pub bytes_total : ℕ
  pub dead_letters : ℕ
  pub delivered : ℕ
  pub undelivered : ℕ

-- `transfer_jobs` and the like hold every job ever added, in order: what a worker has taken from
-- the queue stays on the list.
pub record World : Type 0 where
  pub services : Services
  pub tick : ℕ  -- the number of the next call
  pub db : Db
  pub transfer_jobs : List TransferJobData
  pub dead_letter_jobs : List DeadLetterJobData
  pub webhook_jobs : List WebhookDeliveryJob
  pub kafka_topic : List TransferEvent
  pub alerts : List FailureAlert  -- posted to the alert webhook
  pub kafka_ready : Bool  -- the producer is connected
  pub buckets : List Text  -- the buckets made by the program
  pub objects : List StoredObject
  pub metrics : Metrics
  pub relaying : Bool  -- the flag of the outbox relay
  pub sweeping : Bool  -- the flag of the recovery sweep

abbrev pub ticked : World → World
ticked w = record w { tick = suc w.tick }
