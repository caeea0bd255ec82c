-- ===== src/Sweepers/Redriving.antt =====
-- What a sweep of recovery.service.ts does to the stuck rows, over services that answer.
use mathlib.Core.List.{append_assoc, append-nil}
use basket_shared.Prelude.{
  ℕ, suc, ◌-◌, ◌≡◌, refl, sym, ◌∙◌, inl, inr, Bool, true, false, not, Option, none, some, List, [],
  ◌∷◌, ◌++◌, map, take, filter, leb, ◌==◌, if◌then◌else◌, Bool-cases, All,
}
use basket_shared.World.Entities.{
  FileTransfer, failed, TransferJobData, recovered_exhausted, Message,
}
use basket_shared.World.State.{World}
use basket_shared.World.Monad.{ok, pure, local, call, ◌>>=◌, for_each, try◌catch◌, try◌finally◌}
use basket_shared.Repository.{failed_patch, mark_failed, update_transfer, is_stuck, find_stuck}
use basket_shared.Repository.Table.{update_by_id, find_by_id, oldest_first}
use basket_shared.Outbox.{add_transfer_job}
use basket_shared.World.Lives.{IsReliable}
use basket_shared.Sweepers.{RecoveryConfig, redrive, sweep_once, set_sweeping, sweep}

-- A row that has been tried as often as it may be.
abbrev pub is_exhausted : RecoveryConfig → FileTransfer → Bool
is_exhausted c t = leb c.max_attempts t.attempts

-- The jobs of the rows that have attempts left.
abbrev pub requeued : RecoveryConfig → List FileTransfer → List TransferJobData
requeued c batch =
    map (λ t. record { transfer_id = t.id; carrier = none })
      (filter (λ t. not (is_exhausted c t)) batch)

abbrev Each : (FileTransfer → Type 0) → Option FileTransfer → Type 0
Each P none = Unit
Each P (some t) = P t

-- The row `id`, if it is there, is FAILED.
abbrev pub IsFailed : ℕ → List FileTransfer → Type 0
IsFailed id rows = Each (λ t. t.status ≡ failed) (find_by_id id rows)

module _ (id now : ℕ) (m : Message) where
  fail-IsFailed_self :
      (rows : List FileTransfer) → IsFailed id (update_by_id id now (failed_patch m) rows)
  unfolding find_by_id update_by_id
  fail-IsFailed_self [] = tt
  fail-IsFailed_self (t ∷ rows) = elim (Bool-cases (t.id == id)) [
    | inl e ↦ rw (e, e) refl
    | inr e ↦ rw (e, e) (fail-IsFailed_self rows)
  ]

  fail-IsFailed :
      (other : ℕ) (rows : List FileTransfer)
      → IsFailed other rows
      → IsFailed other (update_by_id id now (failed_patch m) rows)
  unfolding find_by_id update_by_id
  fail-IsFailed other [] h = tt
  fail-IsFailed other (t ∷ rows) h = elim (Bool-cases (t.id == id)) [
    | inl e ↦ elim (Bool-cases (t.id == other)) [
      | inl o ↦ rw (e, o) refl
      | inr o ↦ rw (e, o) (fail-IsFailed other rows (rw o at h))
    ]
    | inr e ↦ elim (Bool-cases (t.id == other)) [
      | inl o ↦ rw (e, o) (rw o at h)
      | inr o ↦ rw (e, o) (fail-IsFailed other rows (rw o at h))
    ]
  ]

module _ (c : RecoveryConfig) where
  -- The state after one row.
  abbrev redriven : FileTransfer → World → World
  redriven t w =
      if is_exhausted c t
      then record w {
        tick = suc w.tick;
        db = record w.db {
          transfers =
              update_by_id t.id (w.services.clock w.tick)
                (failed_patch (recovered_exhausted t.attempts)) w.db.transfers;
        };
      }
      else record w {
        tick = suc w.tick;
        transfer_jobs = w.transfer_jobs ++ record { transfer_id = t.id; carrier = none } ∷ [];
      }

  redrive-redriven :
      (t : FileTransfer) (w : World) → IsReliable w.services → redrive c t w ≡ (ok tt, redriven t w)
  unfolding redrive mark_failed update_transfer add_transfer_job call
  redrive-redriven t w r = elim (Bool-cases (is_exhausted c t)) [
    | inl e ↦ rw (e, r.answers w.tick) refl
    | inr e ↦ rw (e, r.answers w.tick) refl
  ]

  redriven-IsReliable :
      (t : FileTransfer) (w : World) → IsReliable w.services → IsReliable (redriven t w).services
  redriven-IsReliable t w r = elim (Bool-cases (is_exhausted c t)) [
    | inl e ↦ rw e r
    | inr e ↦ rw e r
  ]

  abbrev all_redriven : List FileTransfer → World → World
  all_redriven [] w = w
  all_redriven (t ∷ batch) w = all_redriven batch (redriven t w)

  for_each-redriven :
      (batch : List FileTransfer) (w : World)
      → IsReliable w.services
      → for_each batch (redrive c) w ≡ (ok tt, all_redriven batch w)
  unfolding for_each ◌>>=◌ pure
  for_each-redriven [] w r = refl
  for_each-redriven (t ∷ batch) w r =
      rw (redrive-redriven t w r)
        (for_each-redriven batch (redriven t w) (redriven-IsReliable t w r))

  all_redriven-jobs :
      (batch : List FileTransfer) (w : World)
      → (all_redriven batch w).transfer_jobs ≡ w.transfer_jobs ++ requeued c batch
  all_redriven-jobs [] w = sym (append-nil w.transfer_jobs)
  all_redriven-jobs (t ∷ batch) w = all_redriven-jobs batch (redriven t w) ∙ one
    where
      one :
          (redriven t w).transfer_jobs ++ requeued c batch
          ≡ w.transfer_jobs ++ requeued c (t ∷ batch)
      one = elim (Bool-cases (is_exhausted c t)) [
        | inl e ↦ rw e refl
        | inr e ↦ rw e (
            append_assoc w.transfer_jobs (record { transfer_id = t.id; carrier = none } ∷ [])
              (requeued c batch))
      ]

  redriven-IsFailed :
      (t : FileTransfer) (w : World) (id : ℕ)
      → IsFailed id w.db.transfers
      → IsFailed id (redriven t w).db.transfers
  redriven-IsFailed t w id h = elim (Bool-cases (is_exhausted c t)) [
    | inl e ↦ rw e (
        fail-IsFailed t.id (w.services.clock w.tick) (recovered_exhausted t.attempts) id
          w.db.transfers h)
    | inr e ↦ rw e h
  ]

  all_redriven-IsFailed :
      (batch : List FileTransfer) (w : World) (id : ℕ)
      → IsFailed id w.db.transfers
      → IsFailed id (all_redriven batch w).db.transfers
  all_redriven-IsFailed [] w id h = h
  all_redriven-IsFailed (t ∷ batch) w id h =
      all_redriven-IsFailed batch (redriven t w) id (redriven-IsFailed t w id h)

  -- The rows of the batch that are exhausted are FAILED.
  abbrev pub GaveUp : List FileTransfer → List FileTransfer → Type 0
  GaveUp batch rows = All (λ t. IsFailed t.id rows) (filter (is_exhausted c) batch)

  all_redriven-GaveUp :
      (batch : List FileTransfer) (w : World) → GaveUp batch (all_redriven batch w).db.transfers
  all_redriven-GaveUp [] w = tt
  all_redriven-GaveUp (t ∷ batch) w = elim (Bool-cases (is_exhausted c t)) [
    | inl e ↦ rw e (
      all_redriven-IsFailed batch (redriven t w) t.id (failed_now e),
      all_redriven-GaveUp batch (redriven t w),
    )
    | inr e ↦ rw e (all_redriven-GaveUp batch (redriven t w))
  ]
    where
      failed_now : is_exhausted c t ≡ true → IsFailed t.id (redriven t w).db.transfers
      failed_now e = rw e (
          fail-IsFailed_self t.id (w.services.clock w.tick) (recovered_exhausted t.attempts)
            w.db.transfers)

  -- The rows that a sweep takes: the oldest that are stuck, at most a batch of them.
  abbrev pub stuck_batch : World → List FileTransfer
  stuck_batch w = take c.batch_size (
      oldest_first (λ t. t.updated_at)
        (filter (is_stuck (w.services.clock w.tick - c.stale_ms)) w.db.transfers))

  -- What a sweep that did its work has done.
  pub record Swept (w w' : World) : Type 0 where
    pub jobs : w'.transfer_jobs ≡ w.transfer_jobs ++ requeued c (stuck_batch w)
    pub gave_up : GaveUp (stuck_batch w) w'.db.transfers
    pub released : w'.sweeping ≡ false

  -- Where recovery is on, every call is answered and no sweep runs, a sweep adds a job to the
  -- queue for each row of its batch that has attempts left, once and in the order of the batch,
  -- makes every other row of the batch FAILED, if its id is still there, and clears its flag.
  pub sweep-Swept :
      (w : World)
      → c.enabled ≡ true
      → w.sweeping ≡ false
      → IsReliable w.services
      → (w' : World) × ((sweep c w ≡ (ok tt, w')) × Swept w w')
  unfolding sweep sweep_once find_stuck local ◌>>=◌ pure call try◌catch◌ try◌finally◌
  sweep-Swept w on idle r =
      let v : World = record w { sweeping = true; tick = suc w.tick } in
      (
        set_sweeping false (all_redriven (stuck_batch w) v),
        (
          rw (on, idle, r.answers w.tick, for_each-redriven (stuck_batch w) v r) refl,
          record {
            jobs = all_redriven-jobs (stuck_batch w) v;
            gave_up = all_redriven-GaveUp (stuck_batch w) v;
            released = refl;
          },
        ),
      )
