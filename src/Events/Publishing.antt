-- ===== src/Events/Publishing.antt =====
-- `publishTransferEvent` of events/event-publisher.service.ts: the deliveries that it queues.
use basket_shared.Prelude.{ℕ, ◌≡◌, List}
use basket_shared.World.Entities.{EventSubscription, WebhookDeliveryJob}
use basket_shared.World.State.{World}
use basket_shared.World.Monad.{Async, call}
use basket_shared.World.Keeps.{
  Keeps, Keeps-pure, Keeps-throw, Keeps-local, Keeps-call, Keeps-if, Keeps-catch, Keeps-bind,
  Keeps-for_each,
}

-- The queue of deliveries and the subscriptions.
abbrev Fixed : List WebhookDeliveryJob → List EventSubscription → World → Type 0
Fixed jobs subs w = (w.webhook_jobs ≡ jobs) × (w.db.subscriptions ≡ subs)

module _ (jobs : List WebhookDeliveryJob) (subs : List EventSubscription) where
  Fixed-call :
      {A : Type 0} (f : ℕ → Async A)
      → ((n : ℕ) (w : World) → Fixed jobs subs w → Fixed jobs subs (f n w).1)
      → Keeps (Fixed jobs subs) (call f)
  Fixed-call f k = Keeps-call f (record { at = λ w h. h }) (λ n. record { at = k n })

  ruleset fixed_rules = (
    Keeps-pure, Keeps-throw, Keeps-local, Keeps-if, Keeps-catch, Keeps-bind, Keeps-for_each,
    Fixed-call,
  )
