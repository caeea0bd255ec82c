-- ===== src/Processor/Living/Ending.antt =====
-- The end of an attempt that failed, where the services answer (ingestion.processor.ts).
use basket_shared.Prelude.{ℕ, Bool, Option, none, some, Text, or_else}
use basket_shared.World.Entities.{
  FileTransfer, EventType, EventData, TransferEvent, EventSubscription, Message, transfer_failed,
  failed, exhausted,
}
use basket_shared.World.State.{World}
use basket_shared.World.Monad.{Failure}
use basket_shared.World.Lives.{
  Lives, Reliable, Lives-pure, Lives-throw, Lives-local, Lives-call, Lives-if, Lives-catch,
  Lives-bind, Lives-for_each, Lives-when,
}
use basket_shared.Repository.{find_transfer, mark_processing, mark_failed}
use basket_shared.Quota.{record_usage}
use basket_shared.Events.{kafka_connect, kafka_publish, add_delivery, publish_transfer_event}
use basket_shared.Processor.{
  ProcessorConfig, Job, on_failed, reject, announce_failure, tally, record_failure, to_dead_letter,
  err_message,
}

pub ruleset answering = (
  Lives-pure, Lives-local, Lives-call, Lives-if, Lives-catch, Lives-throw, Lives-bind,
  Lives-for_each, Lives-when,
)

kafka_connect-Lives : Lives Reliable kafka_connect
unfolding kafka_connect
kafka_connect-Lives = search answering

-- What never throws.
module _ {E : World → Type 0} where
  pub find_transfer-Lives : (id : ℕ) → Lives E (find_transfer id)
  unfolding find_transfer
  find_transfer-Lives id = Lives-call _ (λ n w h. h)

  pub mark_processing-Lives : (id : ℕ) → Lives E (mark_processing id)
  unfolding mark_processing
  mark_processing-Lives id = Lives-call _ (λ n w h. h)

  mark_failed-Lives : (id : ℕ) (m : Message) → Lives E (mark_failed id m)
  unfolding mark_failed
  mark_failed-Lives id m = Lives-call _ (λ n w h. h)

  pub record_usage-Lives : (tenant : Text) (bytes : ℕ) → Lives E (record_usage tenant bytes)
  unfolding record_usage
  record_usage-Lives tenant bytes = Lives-call _ (λ n w h. h)

  kafka_publish-Lives : (enabled : Bool) (e : TransferEvent) → Lives E (kafka_publish enabled e)
  unfolding kafka_publish
  kafka_publish-Lives enabled e = search (answering, kafka_connect-Lives)

  add_delivery-Lives : (e : TransferEvent) (s : EventSubscription) → Lives E (add_delivery e s)
  unfolding add_delivery
  add_delivery-Lives e s = Lives-call _ (λ n w h. h)

  pub publish_transfer_event-Lives :
      (kafka : Bool) (t : FileTransfer) (type : EventType) (payload : EventData)
      → Lives E (publish_transfer_event kafka t type payload)
  unfolding publish_transfer_event
  publish_transfer_event-Lives kafka t type payload =
      search (answering, kafka_publish-Lives, add_delivery-Lives)

  tally-Lives :
      (f : World → World) → ((w : World) → Reliable w → Reliable (f w)) → Lives E (tally f)
  tally-Lives f k = Lives-local _ k

  record_failure-Lives : Lives E (tally record_failure)
  unfolding record_failure
  record_failure-Lives = Lives-local _ (λ w h. h)

  to_dead_letter-Lives : (id : ℕ) (m : Message) → Lives E (to_dead_letter id m)
  unfolding to_dead_letter
  to_dead_letter-Lives id m = Lives-call _ (λ n w h. h)

  announce_failure-Lives :
      (c : ProcessorConfig) (m : Message) (o : Option FileTransfer)
      → Lives E (announce_failure c m o)
  announce_failure-Lives c m none = Lives-pure tt
  announce_failure-Lives c m (some t) =
      publish_transfer_event-Lives c.kafka_enabled t transfer_failed (failed m)

  pub on_failed-Lives :
      (c : ProcessorConfig) (job : Job) (e : Failure) → Lives E (on_failed c job e)
  unfolding on_failed
  on_failed-Lives c job e =
      let message = exhausted (or_else job.attempts 1) (err_message e) in
      Lives-if _ _ _ (Lives-pure tt) (
        Lives-bind _ _ (mark_failed-Lives job.transfer_id message) λ _.
          Lives-bind _ _ record_failure-Lives λ _.
            Lives-bind _ _ (find_transfer-Lives job.transfer_id) λ o.
              Lives-bind _ _ (announce_failure-Lives c message o)
                λ _. to_dead_letter-Lives job.transfer_id message)

  pub reject-Lives : (c : ProcessorConfig) (t : FileTransfer) (m : Message) → Lives E (reject c t m)
  unfolding reject
  reject-Lives c t m = Lives-bind _ _ (mark_failed-Lives t.id m) λ _.
      Lives-bind _ _ record_failure-Lives λ _.
        Lives-bind _ _ (publish_transfer_event-Lives c.kafka_enabled t transfer_failed (failed m))
          λ _. to_dead_letter-Lives t.id m
