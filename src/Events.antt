-- ===== src/Events.antt =====
-- nestjs-app/src/events: event-publisher.service.ts, subscriptions.service.ts and
-- webhook-delivery.processor.ts, and `publish` of kafka/kafka-producer.service.ts.
pub mod Laws
pub mod Tests
pub mod Publishing
use basket_shared.Prelude.{
  ℕ, ◌+◌, Bool, true, false, not, ◌&&◌, Option, none, some, List, [], ◌∷◌, ◌++◌, any, filter, find,
  leb, ltb, ◌==◌, or_else, if◌then◌else◌, Text, text_eq,
}
use basket_shared.World.Entities.{
  FileTransfer, EventType, event_eq, EventData, TransferEvent, EventSubscription,
  WebhookDeliveryJob, AuthUser, subscription_missing, subscriber_returned,
}
use basket_shared.World.State.{World}
use basket_shared.World.Monad.{
  error, not_found, ok, Async, pure, throw, local, call, ◌>>=◌, ◌>>◌, try◌catch◌, for_each,
}
use basket_shared.Repository.Table.{newest_first}

-- Connects the producer if it is not, then sends. With Kafka off nothing happens, and an error
-- goes no further than the log.
unfoldable pub kafka_connect : Async (Unit {0})
unfolding local call pure ◌>>=◌
kafka_connect = do
  ready ← local (λ w. (w.kafka_ready, w))
  if ready then pure tt else call (λ n w. (ok tt, record w { kafka_ready = true }))

-- A broker that is not up at the start is connected to later.
unfoldable pub kafka_start : Bool → Async (Unit {0})
unfolding call pure try◌catch◌
kafka_start enabled =
    if enabled
    then (try (call (λ n w. (ok tt, record w { kafka_ready = true }))) catch (λ e. pure tt))
    else pure tt

unfoldable pub kafka_publish : Bool → TransferEvent → Async (Unit {0})
unfolding kafka_connect call pure ◌>>=◌ try◌catch◌
kafka_publish enabled event =
    if enabled
    then (try (kafka_connect
          >> call (λ n w. (ok tt, record w { kafka_topic = w.kafka_topic ++ event ∷ [] })))
        catch (λ e. pure tt))
    else pure tt

abbrev pub event_of : FileTransfer → EventType → EventData → TransferEvent
event_of t type payload = record {
  type = type;
  transfer_id = t.id;
  tenant_id = t.tenant_id;
  payload = payload;
}

-- The tenant's active subscriptions, and of those the ones that ask for the type.
abbrev pub is_active_for : Text → EventSubscription → Bool
is_active_for tenant s = text_eq s.tenant_id tenant && s.active

abbrev pub wants : EventType → EventSubscription → Bool
wants type s = any (event_eq type) s.events

unfoldable pub targets : Text → EventType → List EventSubscription → List EventSubscription
targets tenant type subscriptions =
    filter (wants type) (filter (is_active_for tenant) subscriptions)

abbrev pub delivery_job : TransferEvent → EventSubscription → WebhookDeliveryJob
delivery_job event s = record {
  subscription_id = s.id;
  url = s.url;
  secret = s.secret;
  event = event;
}

unfoldable pub add_delivery : TransferEvent → EventSubscription → Async (Unit {0})
unfolding call
add_delivery event s =
    call (λ n w. (ok tt, record w { webhook_jobs = w.webhook_jobs ++ delivery_job event s ∷ [] }))

unfoldable pub publish_transfer_event :
    Bool → FileTransfer → EventType → EventData → Async (Unit {0})
unfolding kafka_publish targets add_delivery call ◌>>=◌ for_each
publish_transfer_event kafka t type payload = do
  kafka_publish kafka (event_of t type payload)
  found ← call (λ n w. (ok (targets t.tenant_id type w.db.subscriptions), w))
  for_each found (add_delivery (event_of t type payload))

-- `create`, `list` and `remove` of the subscriptions of the caller's tenant.
pub record CreateSubscription : Type 0 where
  pub url : Text
  pub events : List EventType
  pub secret : Option Text

abbrev pub new_subscription :
    AuthUser → CreateSubscription → (random : Text) → (id now : ℕ) → EventSubscription
new_subscription user dto random id now = record {
  id = id;
  tenant_id = user.tenant_id;
  url = dto.url;
  events = dto.events;
  secret = or_else dto.secret random;
  active = true;
  created_at = now;
}

abbrev pub set_subscriptions : List EventSubscription → World → World
set_subscriptions rows w = record w { db = record w.db { subscriptions = rows } }

-- `random` is 24 random bytes in hex.
unfoldable pub create_subscription : AuthUser → CreateSubscription → Text → Async EventSubscription
unfolding call
create_subscription user dto random = call (λ n w.
    let s = new_subscription user dto random (w.services.uuid n) (w.services.clock n) in
    (ok s, set_subscriptions (w.db.subscriptions ++ s ∷ []) w))

unfoldable pub list_subscriptions : AuthUser → Async (List EventSubscription)
unfolding call
list_subscriptions user = call (λ n w. (
  ok (
      newest_first (λ s. s.created_at)
        (filter (λ s. text_eq s.tenant_id user.tenant_id) w.db.subscriptions)),
  w,
))

abbrev pub is_own : AuthUser → ℕ → EventSubscription → Bool
is_own user id s = s.id == id && text_eq s.tenant_id user.tenant_id

abbrev pub delete_if_found : ℕ → Option EventSubscription → Async (Unit {0})
delete_if_found id none = throw (not_found (subscription_missing id))
delete_if_found id (some s) =
    call (λ n w. (ok tt, set_subscriptions (filter (λ s. not (s.id == id)) w.db.subscriptions) w))

unfoldable pub remove_subscription : AuthUser → ℕ → Async (Unit {0})
unfolding call ◌>>=◌ throw
remove_subscription user id = do
  found ← call (λ n w. (ok (find (is_own user id) w.db.subscriptions), w))
  delete_if_found id found

abbrev pub count_delivery : Bool → World → World
count_delivery true w = record w {
  metrics = record w.metrics { delivered = w.metrics.delivered + 1 };
}
count_delivery false w = record w {
  metrics = record w.metrics { undelivered = w.metrics.undelivered + 1 };
}

-- A response that is not 2xx is thrown, so that the queue tries again.
abbrev pub require_ok : ℕ → Async (Unit {0})
require_ok status =
    if leb 200 status && ltb status 300 then pure tt else throw (error (subscriber_returned status))

unfoldable pub deliver : WebhookDeliveryJob → Async (Unit {0})
unfolding call local ◌>>=◌ try◌catch◌ pure throw
deliver job =
    try (do
      status ← call (λ n w. (ok (w.services.http_status n), w))
      require_ok status
      local (λ w. (tt, count_delivery true w)))
    catch (λ e. local (λ w. (tt, count_delivery false w)) >> throw e)
