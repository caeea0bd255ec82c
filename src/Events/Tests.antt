-- ===== src/Events/Tests.antt =====
-- Two subscriptions of two tenants.
use basket_shared.Prelude.{ℕ, true, [], ◌∷◌, text, List}
use basket_shared.World.Entities.{
  EventSubscription, transfer_completed, failed, file_empty, success,
}
use basket_shared.World.State.{World}
use basket_shared.Events.{publish_transfer_event}
use basket_shared.World.Monad.{Outcome}
use basket_shared.System.Steps.{fresh}
use basket_shared.Samples.{calm, acme, row}

abbrev hook : ℕ → List ℕ → EventSubscription
hook id tenant = record {
  id = id;
  tenant_id = tenant;
  url = text "https://example.test/hook";
  events = transfer_completed ∷ [];
  secret = text "s";
  active = true;
  created_at = id;
}

abbrev hooks : List EventSubscription
hooks = hook 1 acme ∷ hook 2 (text "globex") ∷ []

abbrev subscribed : World
subscribed = record (fresh calm) { db = record (fresh calm).db { subscriptions = hooks } }

abbrev announced : Outcome (Unit {0}) × World
announced =
    publish_transfer_event true (row 0 acme success) transfer_completed (failed file_empty)
      subscribed
