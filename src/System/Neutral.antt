-- ===== src/System/Neutral.antt =====
-- Invariants over the outbox, the transfers, the queue and the stored objects, and the actions
-- that touch none of these.
use basket_shared.Prelude.{ℕ, Bool, Option, none, some, List, [], ◌∷◌, Text}
use basket_shared.World.Entities.{
  FileTransfer, TransferJobData, OutboxEvent, EventType, EventData, TransferEvent,
  EventSubscription,
}
use basket_shared.World.State.{World, StoredObject}
use basket_shared.World.Monad.{Async, call}
use basket_shared.World.Keeps.{
  Keeps, Stable, Keeps-pure, Keeps-throw, Keeps-local, Keeps-call, Keeps-if, Keeps-catch,
  Keeps-bind, Keeps-for_each, keeps_rules,
}
use basket_shared.Repository.{find_transfer}
use basket_shared.Quota.{get_usage, check_quota, assert_within_quota, record_usage}
use basket_shared.Clamd.{ScanResult, or_unexpected, parse_reply, scan_file_with_clamd}
use basket_shared.Pipeline.{
  ProcessingContext, PipelineConfig, validate, enforce_quota, scan_virus, enrich_content_type,
  ProcessingStep, validation, quota, antivirus, content_type, execute, run_steps, processing_steps,
  run_pipeline,
}
use basket_shared.Events.{kafka_connect, kafka_publish, add_delivery, publish_transfer_event}

abbrev pub Core : Type 1
Core = List OutboxEvent → List FileTransfer → List TransferJobData → List StoredObject → Type 0

abbrev pub Holds : Core → World → Type 0
Holds Q w = Q w.db.outbox w.db.transfers w.transfer_jobs w.objects

module _ (Q : Core) where
  pub Holds-stable : Stable (Holds Q)
  Holds-stable = record { at = λ w h. h }

  pub get_usage-Keeps : (tenant : Text) → Keeps (Holds Q) (get_usage tenant)
  unfolding get_usage
  get_usage-Keeps tenant = Keeps-call _ Holds-stable (λ n. record { at = λ w h. h })

  pub record_usage-Keeps : (tenant : Text) (bytes : ℕ) → Keeps (Holds Q) (record_usage tenant bytes)
  unfolding record_usage
  record_usage-Keeps tenant bytes = Keeps-call _ Holds-stable (λ n. record { at = λ w h. h })

  scan-Keeps : (path : Text) → Keeps (Holds Q) (scan_file_with_clamd path)
  unfolding scan_file_with_clamd
  scan-Keeps path =
      Keeps-bind _ _ (Keeps-call _ Holds-stable (λ n. record { at = λ w h. h }))
        λ response. unexpected response (parse_reply response)
    where
      unexpected : (r : Text) (o : Option ScanResult) → Keeps (Holds Q) (or_unexpected r o)
      unexpected r none = record { at = λ w h. h }
      unexpected r (some x) = record { at = λ w h. h }

  execute-Keeps :
      (c : PipelineConfig) (s : ProcessingStep) (ctx : ProcessingContext)
      → Keeps (Holds Q) (execute c s ctx)
  unfolding execute
  execute-Keeps c validation ctx = unfold validate in search keeps_rules
  execute-Keeps c quota ctx =
      unfold enforce_quota assert_within_quota check_quota in search (keeps_rules, get_usage-Keeps)
  execute-Keeps c antivirus ctx = unfold scan_virus in search (keeps_rules, scan-Keeps)
  execute-Keeps c content_type ctx = unfold enrich_content_type in search keeps_rules

  run_steps-Keeps :
      (c : PipelineConfig) (steps : List ProcessingStep) (ctx : ProcessingContext)
      → Keeps (Holds Q) (run_steps c steps ctx)
  unfolding run_steps
  run_steps-Keeps c [] ctx = Keeps-pure ctx
  run_steps-Keeps c (s ∷ steps) ctx =
      Keeps-bind _ _ (execute-Keeps c s ctx) (run_steps-Keeps c steps)

  pub run_pipeline-Keeps :
      (c : PipelineConfig) (ctx : ProcessingContext) → Keeps (Holds Q) (run_pipeline c ctx)
  unfolding run_pipeline
  run_pipeline-Keeps c ctx = run_steps-Keeps c processing_steps ctx

  -- A call that leaves all four alone.
  pub Keeps-quiet :
      {A : Type 0} (f : ℕ → Async A)
      → ((n : ℕ) (w : World) → Holds Q w → Holds Q (f n w).1)
      → Keeps (Holds Q) (call f)
  Keeps-quiet f k = Keeps-call f Holds-stable (λ n. record { at = k n })

  ruleset quiet_rules = (
    Keeps-pure, Keeps-throw, Keeps-local, Keeps-if, Keeps-catch, Keeps-bind, Keeps-for_each,
    Keeps-quiet,
  )

  kafka_connect-Keeps : Keeps (Holds Q) kafka_connect
  unfolding kafka_connect
  kafka_connect-Keeps = search quiet_rules

  kafka_publish-Keeps :
      (enabled : Bool) (e : TransferEvent) → Keeps (Holds Q) (kafka_publish enabled e)
  unfolding kafka_publish
  kafka_publish-Keeps enabled e = search (quiet_rules, kafka_connect-Keeps)

  add_delivery-Keeps :
      (e : TransferEvent) (s : EventSubscription) → Keeps (Holds Q) (add_delivery e s)
  unfolding add_delivery
  add_delivery-Keeps e s = search quiet_rules

  pub publish_transfer_event-Keeps :
      (kafka : Bool) (t : FileTransfer) (type : EventType) (payload : EventData)
      → Keeps (Holds Q) (publish_transfer_event kafka t type payload)
  unfolding publish_transfer_event
  publish_transfer_event-Keeps kafka t type payload =
      search (quiet_rules, kafka_publish-Keeps, add_delivery-Keeps)

  pub find_transfer-Keeps : (id : ℕ) → Keeps (Holds Q) (find_transfer id)
  unfolding find_transfer
  find_transfer-Keeps id = search quiet_rules
