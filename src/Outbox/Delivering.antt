-- ===== src/Outbox/Delivering.antt =====
-- A relay of outbox.service.ts over services that answer: what it adds to the queue, and what it
-- marks.
use basket_shared.Prelude.{
  ℕ, suc, ◌≡◌, refl, ap, ◌∙◌, inl, inr, true, false, List, [], ◌∷◌, ◌++◌, map, ◌==◌, ==_iff,
  Bool-cases, not_both, All,
}
use basket_shared.World.Entities.{TransferJobData, published, OutboxEvent}
use basket_shared.World.State.{World}
use basket_shared.World.Lives.{IsReliable}
use basket_shared.World.Monad.{ok, pure, local, call, ◌>>=◌, for_each, try◌catch◌, try◌finally◌}
use basket_shared.Outbox.{
  next_batch, mark_published, add_transfer_job, update_published, publish, pending_events,
  relay_once, set_relaying, relay,
}

-- The events of this id are PUBLISHED.
abbrev pub IsMarked : List OutboxEvent → ℕ → Type 0
IsMarked events id = All (λ e. e.id ≡ id → e.status ≡ published) events

mark_published-IsMarked_self :
    (id now : ℕ) (events : List OutboxEvent) → IsMarked (mark_published id now events) id
unfolding mark_published
mark_published-IsMarked_self id now [] = tt
mark_published-IsMarked_self id now (e ∷ events) = (
  elim (Bool-cases (e.id == id)) [
    | inl s ↦ rw s (λ _. refl)
    | inr s ↦ rw s (λ q. absurd (not_both s ((==_iff e.id id).1 q)))
  ],
  mark_published-IsMarked_self id now events,
)

mark_published-IsMarked :
    (id now other : ℕ) (events : List OutboxEvent)
    → IsMarked events other
    → IsMarked (mark_published id now events) other
unfolding mark_published
mark_published-IsMarked id now other [] h = tt
mark_published-IsMarked id now other (e ∷ events) (p, h) = (
  elim (Bool-cases (e.id == id)) [ inl s ↦ rw s (λ _. refl) | inr s ↦ rw s p ],
  mark_published-IsMarked id now other events h,
)

-- The state after one event is published.
abbrev pub sent : OutboxEvent → World → World
sent e w = record w {
  tick = suc (suc w.tick);
  transfer_jobs = w.transfer_jobs ++ e.payload ∷ [];
  db = record w.db { outbox = mark_published e.id (w.services.clock (suc w.tick)) w.db.outbox };
}

abbrev pub all_sent : List OutboxEvent → World → World
all_sent [] w = w
all_sent (e ∷ batch) w = all_sent batch (sent e w)

publish-sent :
    (e : OutboxEvent) (w : World) → IsReliable w.services → publish e w ≡ (ok tt, sent e w)
unfolding publish add_transfer_job update_published ◌>>=◌ call
publish-sent e w r = rw (r.answers w.tick, r.answers (suc w.tick)) refl

for_each-sent :
    (batch : List OutboxEvent) (w : World)
    → IsReliable w.services
    → for_each batch publish w ≡ (ok tt, all_sent batch w)
unfolding for_each ◌>>=◌ pure
for_each-sent [] w r = refl
for_each-sent (e ∷ batch) w r = rw (publish-sent e w r) (for_each-sent batch (sent e w) r)

snoc-append : {A : Type 0} (xs : List A) (x : A) (ys : List A) → (xs ++ x ∷ []) ++ ys ≡ xs ++ x ∷ ys
snoc-append [] x ys = refl
snoc-append (z ∷ xs) x ys = ap (λ l. z ∷ l) (snoc-append xs x ys)

all_sent-jobs :
    (batch : List OutboxEvent) (w : World)
    → (all_sent batch w).transfer_jobs ≡ w.transfer_jobs ++ map (λ e. e.payload) batch
all_sent-jobs [] w = nil w.transfer_jobs
  where
    nil : (xs : List TransferJobData) → xs ≡ xs ++ []
    nil [] = refl
    nil (x ∷ xs) = ap (λ l. x ∷ l) (nil xs)
all_sent-jobs (e ∷ batch) w =
    all_sent-jobs batch (sent e w)
    ∙ snoc-append w.transfer_jobs e.payload (map (λ d. d.payload) batch)

all_sent-IsMarked :
    (batch : List OutboxEvent) (w : World) (id : ℕ)
    → IsMarked w.db.outbox id
    → IsMarked (all_sent batch w).db.outbox id
all_sent-IsMarked [] w id h = h
all_sent-IsMarked (e ∷ batch) w id h =
    all_sent-IsMarked batch (sent e w) id
      (mark_published-IsMarked e.id (w.services.clock (suc w.tick)) id w.db.outbox h)

all_sent-marks :
    (batch : List OutboxEvent) (w : World)
    → All (λ e. IsMarked (all_sent batch w).db.outbox e.id) batch
all_sent-marks [] w = tt
all_sent-marks (e ∷ batch) w = (
  all_sent-IsMarked batch (sent e w) e.id
      (mark_published-IsMarked_self e.id (w.services.clock (suc w.tick)) w.db.outbox),
  all_sent-marks batch (sent e w),
)

all_sent-rows :
    (batch : List OutboxEvent) (w : World) → (all_sent batch w).db.transfers ≡ w.db.transfers
all_sent-rows [] w = refl
all_sent-rows (e ∷ batch) w = all_sent-rows batch (sent e w)

pub all_sent-services :
    (batch : List OutboxEvent) (w : World) → (all_sent batch w).services ≡ w.services
all_sent-services [] w = refl
all_sent-services (e ∷ batch) w = all_sent-services batch (sent e w)

-- What a relay that did its work has done.
pub record Relayed (w w' : World) : Type 0 where
  pub rows : w'.db.transfers ≡ w.db.transfers
  pub same_services : w'.services ≡ w.services
  pub jobs : w'.transfer_jobs ≡ w.transfer_jobs ++ map (λ e. e.payload) (next_batch w.db.outbox)
  pub marked : All (λ e. IsMarked w'.db.outbox e.id) (next_batch w.db.outbox)
  pub released : w'.relaying ≡ false

abbrev pub relayed : World → World
relayed w =
    set_relaying false
      (all_sent (next_batch w.db.outbox) (record w { relaying = true; tick = suc w.tick }))

pub relay-relayed :
    (w : World) → IsReliable w.services → w.relaying ≡ false → relay w ≡ (ok tt, relayed w)
unfolding relay relay_once pending_events local ◌>>=◌ pure call try◌catch◌ try◌finally◌
relay-relayed w r idle =
    rw
      (
        idle,
        r.answers w.tick,
        for_each-sent (next_batch w.db.outbox) (record w { relaying = true; tick = suc w.tick }) r,
      )
      refl

-- Where every call is answered and no relay runs, a relay adds the job of each event of its batch
-- to the queue, once and in the order of the batch, marks each of them PUBLISHED, changes no row of
-- `file_transfers`, and clears its flag.
pub relay-Relayed :
    (w : World)
    → IsReliable w.services
    → w.relaying ≡ false
    → (w' : World) × ((relay w ≡ (ok tt, w')) × Relayed w w')
relay-Relayed w r idle =
    let batch = next_batch w.db.outbox in
    let v : World = record w { relaying = true; tick = suc w.tick } in
    (
      relayed w,
      (
        relay-relayed w r idle,
        record {
          rows = all_sent-rows batch v;
          same_services = all_sent-services batch v;
          jobs = all_sent-jobs batch v;
          marked = all_sent-marks batch v;
          released = refl;
        },
      ),
    )
