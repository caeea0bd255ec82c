-- ===== src/System/Steps.antt =====
-- The program as a step relation: a request, a job of the worker or a timer at a time, in any
-- order, over one state. Every step runs to its end, an exception, or the death of the process,
-- after which `restart` starts a new one over the same stores.
use basket_shared.Prelude.{ℕ, All, false, []}
use basket_shared.World.Entities.{Carrier, AuthUser}
use basket_shared.World.State.{Services, World}
use basket_shared.World.Monad.{Failure}
use basket_shared.World.Keeps.{Keeps}
use basket_shared.Outbox.{relay}
use basket_shared.Outbox.Sound.{IsSound}
use basket_shared.Outbox.Relaying.{relay-Keeps}
use basket_shared.Repository.Table.{pending_row}
use basket_shared.Ingestion.{pending_input, IngestionConfig, SftpgoWebhook, accept}
use basket_shared.Ingestion.Root.{IsBelowRoot, resolve_within_root_iff}
use basket_shared.Ingestion.Accept.{accept-Keeps}
use basket_shared.Processor.{ProcessorConfig, Job, process, on_failed}
use basket_shared.Sweepers.{RecoveryConfig, sweep, purge}
use basket_shared.Transfers.{RetryBatch, retry, retry_batch}
use basket_shared.System.Neutral.{Core, Holds}
use basket_shared.System.Worker.{Anyone}
use basket_shared.System.Worker.Running.{process-Keeps, on_failed-Keeps}
use basket_shared.System.Managing.{
  ManageSafe, sweep-Keeps, purge-Keeps, retry-Keeps, retry_batch-Keeps,
}
use basket_shared.System.Invariants.{
  RowCore, IsRooted, IsRooted-ManageSafe, IsStored, SoundCore, SoundCore-ManageSafe, BackedCore,
  BackedCore-ManageSafe,
}
use basket_shared.System.Rows.{Grows-of_StartsWith, accept-Row, relay-Row}

-- A new process: the flags, the gauges and the Kafka producer are as the constructors set them.
abbrev pub restarted : World → World
restarted w = record w {
  relaying = false;
  sweeping = false;
  kafka_ready = false;
  metrics = record {
    in_flight = 0;
    succeeded = 0;
    failures = 0;
    bytes_total = 0;
    dead_letters = 0;
    delivered = 0;
    undelivered = 0;
  };
}

-- One step of a program whose ingestion service is configured by `c`.
pub data Step (c : IngestionConfig) (w : World) : World → Type 0 where
  accepting : (p : SftpgoWebhook) (carrier : Carrier) → Step c w (accept c p carrier w).1
  relaying : Step c w (relay w).1
  processing : (d : ProcessorConfig) (job : Job) → Step c w (process d job w).1
  failing : (d : ProcessorConfig) (job : Job) (e : Failure) → Step c w (on_failed d job e w).1
  sweeping : (d : RecoveryConfig) → Step c w (sweep d w).1
  purging : (retention_days : ℕ) → Step c w (purge retention_days w).1
  retrying : (id : ℕ) (user : AuthUser) → Step c w (retry id user w).1
  retrying_batch : (dto : RetryBatch) (user : AuthUser) → Step c w (retry_batch dto user w).1
  restart : Step c w (restarted w)

-- The program over new stores.
abbrev pub fresh : Services → World
fresh s = restarted (record {
  services = s;
  tick = 0;
  db = record { transfers = []; outbox = []; usage = []; subscriptions = []; users = [] };
  transfer_jobs = [];
  dead_letter_jobs = [];
  webhook_jobs = [];
  kafka_topic = [];
  alerts = [];
  kafka_ready = false;
  buckets = [];
  objects = [];
  metrics = record {
    in_flight = 0;
    succeeded = 0;
    failures = 0;
    bytes_total = 0;
    dead_letters = 0;
    delivered = 0;
    undelivered = 0;
  };
  relaying = false;
  sweeping = false;
})

pub data Reach (c : IngestionConfig) : World → Type 0 where
  start : (s : Services) → Reach c (fresh s)
  next : {w w' : World} → Reach c w → Step c w w' → Reach c w'

module _ (c : IngestionConfig) where
  pub record Preserved (Q : Core) : Type 0 where
    pub managing : ManageSafe Q
    pub accepts : (p : SftpgoWebhook) (r : Carrier) → Keeps (Holds Q) (accept c p r)
    pub relays : Keeps (Holds Q) relay

  pub step_keeps : (Q : Core) → Preserved Q → {w w' : World} → Step c w w' → Holds Q w → Holds Q w'
  step_keeps Q k (accepting p carrier) h = (k.accepts p carrier).at _ h
  step_keeps Q k relaying h = k.relays.at _ h
  step_keeps Q k (processing d job) h = (process-Keeps Anyone Q k.managing.worker d job tt).at _ h
  step_keeps Q k (failing d job e) h =
      (on_failed-Keeps Anyone Q k.managing.worker d job e tt).at _ h
  step_keeps Q k (sweeping d) h = (sweep-Keeps Q k.managing d).at _ h
  step_keeps Q k (purging days) h = (purge-Keeps Q k.managing days).at _ h
  step_keeps Q k (retrying id user) h = (retry-Keeps Q k.managing id user).at _ h
  step_keeps Q k (retrying_batch dto user) h = (retry_batch-Keeps Q k.managing dto user).at _ h
  step_keeps Q k restart h = h

  SoundCore-Preserved : Preserved SoundCore
  SoundCore-Preserved = record {
    managing = SoundCore-ManageSafe;
    accepts = accept-Keeps c;
    relays = relay-Keeps;
  }

  BackedCore-Preserved : Preserved BackedCore
  unfolding pending_row
  BackedCore-Preserved = record {
    managing = BackedCore-ManageSafe;
    accepts = λ p r.
        accept-Row (λ b. All (IsStored b)) c p r
          (λ _ _. Grows-of_StartsWith IsStored _ (λ b id now s. cc));
    relays = relay-Row (λ b. All (IsStored b));
  }

  IsRooted-Preserved : Preserved (RowCore (IsRooted c))
  unfolding pending_row pending_input
  IsRooted-Preserved = record {
    managing = IsRooted-ManageSafe c;
    accepts = λ p r.
        accept-Row (λ b. All (IsRooted c b)) c p r
          λ s found.
            Grows-of_StartsWith (IsRooted c) _
              (λ b id now. ((resolve_within_root_iff c p.path s).0 found).2);
    relays = relay-Row (λ b. All (IsRooted c b));
  }

-- In every state that webhooks, relays, worker jobs, sweeps, purges, retries and restarts can lead
-- to from empty stores, in any order and whatever calls fail or crash: every row of
-- `file_transfers` has an outbox event that is for it, and every event that is marked PUBLISHED
-- has its job among those that were added to the queue, and the ids of the events are distinct.
pub reach-IsSound : (c : IngestionConfig) (w : World) → Reach c w → IsSound w
reach-IsSound c _ (start s) = record { distinct = tt; intended = tt; delivered = tt }
reach-IsSound c _ (next r s) =
    step_keeps c SoundCore (SoundCore-Preserved c) s (reach-IsSound c _ r)

-- In every state that webhooks, relays, worker jobs, sweeps, purges, retries and restarts can lead
-- to from empty stores, in any order and whatever calls fail or crash, a row whose status is
-- SUCCESS names an object key, and an object stands under that key in the bucket of the row.
pub reach-IsStored :
    (c : IngestionConfig) (w : World) → Reach c w → All (IsStored w.objects) w.db.transfers
reach-IsStored c _ (start s) = tt
reach-IsStored c _ (next r s) =
    step_keeps c BackedCore (BackedCore-Preserved c) s (reach-IsStored c _ r)

-- In every state that webhooks, relays, worker jobs, sweeps, purges, retries and restarts can lead
-- to from empty stores, in any order and whatever calls fail or crash, the source path of every row
-- lies in the data root of the configuration, or is it.
pub reach-IsBelowRoot :
    (c : IngestionConfig) (w : World)
    → Reach c w
    → All (λ t. IsBelowRoot c t.source_path) w.db.transfers
reach-IsBelowRoot c _ (start s) = tt
reach-IsBelowRoot c _ (next r s) =
    step_keeps c (RowCore (IsRooted c)) (IsRooted-Preserved c) s (reach-IsBelowRoot c _ r)
