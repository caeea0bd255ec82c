-- ===== src/Outbox/Sound.antt =====
-- The guarantee of the outbox, for outbox.service.ts: no accepted transfer is forgotten. Every row
-- has its event, and every published event its job.
use basket_shared.Prelude.{ℕ, ◌≡◌, ◌≢◌, List, [], ◌∷◌, All, Some, In}
use basket_shared.World.Entities.{FileTransfer, TransferJobData, published, OutboxEvent}
use basket_shared.World.State.{World}
use basket_shared.World.Keeps.{Stable}

-- The event is for the transfer `id`.
abbrev pub IsFor : ℕ → OutboxEvent → Type 0
IsFor id e = e.payload.transfer_id ≡ id

-- A published event has its job on the queue.
abbrev pub IsDelivered : List TransferJobData → OutboxEvent → Type 0
IsDelivered jobs e = e.status ≡ published → In e.payload jobs

-- Two events of one id carry the same job.
abbrev pub Agrees : OutboxEvent → OutboxEvent → Type 0
Agrees d e = e.id ≡ d.id → e.payload ≡ d.payload

abbrev pub HasDistinctIds : List OutboxEvent → Type 0
HasDistinctIds [] = Unit
HasDistinctIds (e ∷ events) = All (λ d. d.id ≢ e.id) events × HasDistinctIds events

-- Every row has an event that is for it, and what is published is on the queue.
pub record Sound (outbox : List OutboxEvent) (transfers : List FileTransfer)
    (jobs : List TransferJobData) : Type 0 where
  pub distinct : HasDistinctIds outbox
  pub intended : All (λ t. Some (IsFor t.id) outbox) transfers
  pub delivered : All (IsDelivered jobs) outbox

abbrev pub IsSound : World → Type 0
IsSound w = Sound w.db.outbox w.db.transfers w.transfer_jobs

pub IsSound-stable : Stable IsSound
IsSound-stable = record { at = λ w h. h }
