-- ===== src/Outbox/Tests.antt =====
-- The outbox at work on one transfer.
use basket_shared.Prelude.{arith, ◌≡◌, refl, none, [], ◌∷◌, text}
use basket_shared.World.State.{World}
use basket_shared.World.Monad.{ok}
use basket_shared.Repository.Table.{CreatePendingInput, pending_row}
use basket_shared.Outbox.{intent, create_transfer_with_outbox, relay}
use basket_shared.Outbox.Atomic.{Creates, create-Creates}
use basket_shared.Outbox.Draining.{backlog, relays, relays-backlog}
use basket_shared.Outbox.Delivering.{Relayed, relay-Relayed}
use basket_shared.System.Steps.{fresh}
use basket_shared.Samples.{calm}

abbrev input : CreatePendingInput
input = record {
  idempotency_key = text "k";
  tenant_id = text "acme";
  filename = text "a.csv";
  virtual_path = text "/a.csv";
  source_path = text "/srv/data/a.csv";
  bucket = text "bucket";
  size_bytes = 5;
  username = text "alice";
  protocol = none;
  session_id = none;
}

abbrev created : World
created = (create_transfer_with_outbox input [] (fresh calm)).1

-- One event waits.
abbrev waiting : World
waiting = record (fresh calm) {
  db = record (fresh calm).db { outbox = intent (pending_row input 7 100) [] 8 100 ∷ [] };
}

relay-Relayed_example : (w' : World) × ((relay waiting ≡ (ok tt, w')) × Relayed waiting w')
relay-Relayed_example = relay-Relayed waiting (record { answers = λ n. refl }) refl

relays-backlog_example : backlog (relays 1 waiting) ≡ 0
relays-backlog_example =
    relays-backlog 1 waiting (record { answers = λ n. refl }) refl (omega arith)

create-Creates_example :
    Creates input
      (fresh calm).db
      (create_transfer_with_outbox input [] (fresh calm)).0
      (create_transfer_with_outbox input [] (fresh calm)).1.db
create-Creates_example = create-Creates input [] (fresh calm)
