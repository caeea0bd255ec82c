-- ===== src/Outbox.antt =====
-- nestjs-app/src/outbox/outbox.service.ts: the transactional outbox and its relay.
pub mod Atomic
pub mod Sound
pub mod Marking
pub mod Relaying
pub mod Creating
pub mod Delivering
pub mod Draining
pub mod Tests
use basket_shared.Prelude.{
  ℕ, suc, Bool, true, false, Option, none, some, List, [], ◌∷◌, ◌++◌, any, take, filter, ◌==◌,
  if◌then◌else◌,
}
use basket_shared.World.Entities.{
  Carrier, FileTransfer, TransferJobData, pending, published, OutboxEvent,
}
use basket_shared.World.State.{World}
use basket_shared.World.Monad.{
  unique_violation, Outcome, ok, thrown, Async, pure, local, call, ◌>>=◌, ◌>>◌, try◌catch◌,
  try◌finally◌, transaction, for_each,
}
use basket_shared.Repository.{absorb_duplicate}
use basket_shared.Repository.Table.{CreatePendingInput, insert_transfer, oldest_first}

-- The event that `createTransferWithOutbox` writes beside the row.
abbrev pub intent : FileTransfer → Carrier → (id now : ℕ) → OutboxEvent
intent row carrier id now = record {
  id = id;
  aggregate_id = row.id;
  payload = record { transfer_id = row.id; carrier = some carrier };
  status = pending;
  attempts = 0;
  created_at = now;
  published_at = none;
}

-- INSERT: the primary key of `outbox_events` is unique.
abbrev pub add_event : OutboxEvent → World → Outcome (Unit {0}) × World
add_event e w =
    if any (λ d. d.id == e.id) w.db.outbox
    then (thrown unique_violation, w)
    else (ok tt, record w { db = record w.db { outbox = w.db.outbox ++ e ∷ [] } })

unfoldable pub insert_intent : FileTransfer → Carrier → ℕ → Async (Unit {0})
insert_intent row carrier n w =
    add_event (intent row carrier (w.services.uuid n) (w.services.clock n)) w

-- The callback of the transaction.
unfoldable pub write_row_and_intent : CreatePendingInput → Carrier → Async FileTransfer
unfolding pure call ◌>>=◌ insert_transfer insert_intent
write_row_and_intent input carrier = do
  saved ← call (λ n. insert_transfer input n)
  call (λ n. insert_intent saved carrier n)
  pure saved

unfoldable pub create_transfer_with_outbox :
    CreatePendingInput → Carrier → Async (Option FileTransfer)
unfolding write_row_and_intent transaction try◌catch◌
create_transfer_with_outbox input carrier =
    try (do saved ← transaction (write_row_and_intent input carrier); pure (some saved))
    catch absorb_duplicate

abbrev pub relay_batch : ℕ
relay_batch = 100

abbrev pub is_pending : OutboxEvent → Bool
is_pending e = elim e.status [ pending ↦ true | published ↦ false ]

-- The oldest events that are PENDING.
unfoldable pub next_batch : List OutboxEvent → List OutboxEvent
unfolding oldest_first
next_batch events = take relay_batch (oldest_first (λ e. e.created_at) (filter is_pending events))

abbrev pub published_event : ℕ → OutboxEvent → OutboxEvent
published_event now e = record e {
  status = published;
  attempts = suc e.attempts;
  published_at = some now;
}

unfoldable pub mark_published : ℕ → ℕ → List OutboxEvent → List OutboxEvent
mark_published id now [] = []
mark_published id now (e ∷ events) =
    (if e.id == id then published_event now e else e) ∷ mark_published id now events

-- `queue.add(TRANSFER_JOB, job)`
unfoldable pub add_transfer_job : TransferJobData → Async (Unit {0})
unfolding call
add_transfer_job job =
    call (λ n w. (ok tt, record w { transfer_jobs = w.transfer_jobs ++ job ∷ [] }))

-- `repo.update(id, { status: PUBLISHED, ... })` on the events.
unfoldable pub update_published : ℕ → Async (Unit {0})
unfolding call mark_published
update_published id = call (λ n w. (
  ok tt,
  record w { db = record w.db { outbox = mark_published id (w.services.clock n) w.db.outbox } },
))

-- The body of the loop in `relay`.
unfoldable pub publish : OutboxEvent → Async (Unit {0})
unfolding add_transfer_job update_published ◌>>=◌
publish e = add_transfer_job e.payload >> update_published e.id

unfoldable pub pending_events : Async (List OutboxEvent)
unfolding call next_batch
pending_events = call (λ n w. (ok (next_batch w.db.outbox), w))

-- The relay without its flag: an error is logged, and goes no further.
unfoldable pub relay_once : Async (Unit {0})
unfolding pending_events publish for_each ◌>>=◌ try◌catch◌ pure
relay_once = try (do batch ← pending_events; for_each batch publish) catch (λ e. pure tt)

abbrev pub set_relaying : Bool → World → World
set_relaying b w = record w { relaying = b }

-- A relay that finds another one running returns at once.
unfoldable pub relay : Async (Unit {0})
unfolding relay_once local try◌finally◌ ◌>>=◌ pure
relay = do
  busy ← local (λ w. (w.relaying, w))
  if busy
      then pure tt
      else local (λ w. (tt, set_relaying true w)) >> (try relay_once finally set_relaying false)
