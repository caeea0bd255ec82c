-- ===== src/System/Managing.antt =====
-- The sweepers and the management operations under an invariant: recovery.service.ts,
-- retention.service.ts, and `retry` and `retryBatch` of transfers.service.ts.
use basket_shared.Prelude.{
  ℕ, ◌*◌, true, false, not, ◌||◌, Option, none, some, List, [], ◌∷◌, ◌++◌, filter, leb, ◌==◌,
}
use basket_shared.World.Entities.{
  FileTransfer, TransferJobData, OutboxEvent, AuthUser, is_success, recovered_exhausted,
}
use basket_shared.World.State.{World, Db, StoredObject}
use basket_shared.World.Monad.{ok, Async, local, call, transaction}
use basket_shared.World.Keeps.{
  Keeps, Keeps-pure, Keeps-throw, Keeps-local, Keeps-call, Keeps-if, Keeps-catch, Keeps-finally,
  Keeps-bind, Keeps-for_each,
}
use basket_shared.World.Triples.{Triple-weaken, Triple-of_Keeps, Keeps-atomic}
use basket_shared.Repository.{
  reset_patch, is_expired, mark_failed, find_stuck, delete_terminal_older_than,
}
use basket_shared.Outbox.{add_transfer_job}
use basket_shared.Sweepers.{
  RecoveryConfig, redrive, ago, sweep_once, set_sweeping, sweep, purge, ms_per_day,
}
use basket_shared.Transfers.{
  Scope, scoped, is_admin, find_scoped, update_seen, reset_scoped, or_fail, reset_found, retry,
  RetryBatch, batch_status, reset_batch, retry_batch,
}
use basket_shared.System.Neutral.{Core, Holds, Holds-stable}
use basket_shared.System.Worker.{WorkerSafe, Anyone, mark_failed-Keeps}

-- What survives a reset under a scope, another job, and a purge.
pub record ManageSafe (Q : Core) : Type 0 where
  pub worker : WorkerSafe Q
  pub of_reset :
      (o : List OutboxEvent) (t : List FileTransfer) (j : List TransferJobData)
      (b : List StoredObject) (scope : Scope) (id now : ℕ)
      → Q o t j b
      → Q o (update_seen scope id now reset_patch t) j b
  pub of_job :
      (o : List OutboxEvent) (t : List FileTransfer) (j : List TransferJobData)
      (b : List StoredObject) (job : TransferJobData)
      → Q o t j b
      → Q o t (j ++ job ∷ []) b
  pub of_purge :
      (o : List OutboxEvent) (t : List FileTransfer) (j : List TransferJobData)
      (b : List StoredObject) (cutoff : ℕ)
      → Q o t j b
      → Q o (filter (λ r. not (is_expired cutoff r)) t) j b

-- `Q` holds, and still would if the tables were put back to `before`.
abbrev pub CanRollBack : Core → Db → World → Type 0
CanRollBack Q before w = Holds Q w × Holds Q (record w { db = before })

module _ (Q : Core) where
  -- Work that can be rolled back at every point may run in a transaction.
  pub transaction-Keeps :
      {A : Type 0} (m : Async A)
      → ((before : Db) → Keeps (CanRollBack Q before) m)
      → Keeps (Holds Q) (transaction m)
  transaction-Keeps m k = Keeps-atomic m (Holds-stable Q) λ v h.
      (Triple-weaken (λ w. Holds Q (record w { db = v.db })) (λ w q. q.1)
          (Triple-of_Keeps (k v.db))).at
        v (h, h)

  -- And under the scope of a user.
  pub scoped-Keeps :
      {A : Type 0} (user : AuthUser) (work : Scope → Async A)
      → ((before : Db) (scope : Scope) → Keeps (CanRollBack Q before) (work scope))
      → Keeps (Holds Q) (scoped user work)
  unfolding scoped
  scoped-Keeps {A} user work k =
      Keeps-if (is_admin user) _ _ (λ _. record { at = λ w h. ((k w.db none).at w (h, h)).0 })
        λ _. transaction-Keeps _ λ before.
          Keeps-bind (call (λ n w. (ok tt, w))) _
            (Keeps-call {A = Unit {0}} (λ n w. (ok tt, w)) (record { at = λ w h. h })
              (λ n. record { at = λ w h. h }))
            (λ _. k before (some user.tenant_id))

module _ (Q : Core) (safe : ManageSafe Q) where
  add_transfer_job-Keeps : (job : TransferJobData) → Keeps (Holds Q) (add_transfer_job job)
  unfolding add_transfer_job
  add_transfer_job-Keeps job =
      Keeps-call _ (Holds-stable Q) (λ n. record { at = λ w h. safe.of_job _ _ _ _ job h })

  redrive-Keeps : (c : RecoveryConfig) (t : FileTransfer) → Keeps (Holds Q) (redrive c t)
  unfolding redrive
  redrive-Keeps c t =
      let again : TransferJobData = record { transfer_id = t.id; carrier = none } in
      Keeps-if (leb c.max_attempts t.attempts) (mark_failed t.id (recovered_exhausted t.attempts))
        (add_transfer_job again)
        (λ _. mark_failed-Keeps Anyone Q safe.worker t.id (recovered_exhausted t.attempts) tt)
        (λ _. add_transfer_job-Keeps again)

  find_stuck-Keeps : (stale limit : ℕ) → Keeps (Holds Q) (find_stuck stale limit)
  unfolding find_stuck
  find_stuck-Keeps stale limit = Keeps-call _ (Holds-stable Q) (λ n. record { at = λ w h. h })

  pub sweep-Keeps : (c : RecoveryConfig) → Keeps (Holds Q) (sweep c)
  unfolding sweep
  sweep-Keeps c = Keeps-bind (local (λ w. (w.sweeping, w))) _ (Keeps-local _ (λ w h. h)) λ busy.
      Keeps-if (not c.enabled || busy) _ _ (λ _. Keeps-pure tt)
        λ _.
          Keeps-bind (local (λ w. (tt, set_sweeping true w))) _ (Keeps-local _ (λ w h. h))
            λ _. Keeps-finally (sweep_once c) (set_sweeping false) once (λ w h. h)
    where
      once : Keeps (Holds Q) (sweep_once c)
      once =
          unfold sweep_once in
          Keeps-catch _ _
            (Keeps-bind (ago c.stale_ms) _ (Keeps-local _ (λ w h. h)) λ stale.
              Keeps-bind (find_stuck stale c.batch_size) _ (find_stuck-Keeps stale c.batch_size)
                λ stuck. Keeps-for_each stuck (redrive c) (redrive-Keeps c))
            (λ e. Keeps-pure tt)

  delete-Keeps : (cutoff : ℕ) → Keeps (Holds Q) (delete_terminal_older_than cutoff)
  unfolding delete_terminal_older_than
  delete-Keeps cutoff =
      Keeps-call _ (Holds-stable Q) (λ n. record { at = λ w h. safe.of_purge _ _ _ _ cutoff h })

  pub purge-Keeps : (retention_days : ℕ) → Keeps (Holds Q) (purge retention_days)
  unfolding purge
  purge-Keeps days =
      Keeps-if (days == 0) _ _ (λ _. Keeps-pure tt)
        λ _. Keeps-bind (ago (days * ms_per_day)) _ (Keeps-local _ (λ w h. h)) λ cutoff.
          Keeps-bind (delete_terminal_older_than cutoff) _ (delete-Keeps cutoff) λ _. Keeps-pure tt

  module _ (before : Db) where
    find_scoped-CanRollBack :
        (scope : Scope) (id : ℕ) → Keeps (CanRollBack Q before) (find_scoped scope id)
    unfolding find_scoped
    find_scoped-CanRollBack scope id =
        Keeps-call _ (record { at = λ w h. h }) (λ n. record { at = λ w h. h })

    reset_scoped-CanRollBack :
        (scope : Scope) (id : ℕ) → Keeps (CanRollBack Q before) (reset_scoped scope id)
    unfolding reset_scoped
    reset_scoped-CanRollBack scope id =
        Keeps-call _ (record { at = λ w h. h })
          (λ n. record { at = λ w h. (safe.of_reset _ _ _ _ scope id _ h.0, h.1) })

    or_fail-CanRollBack :
        (id : ℕ) (o : Option FileTransfer) → Keeps (CanRollBack Q before) (or_fail id o)
    or_fail-CanRollBack id none = Keeps-throw _
    or_fail-CanRollBack id (some t) = Keeps-pure t

    reset_found-CanRollBack :
        (scope : Scope) (id : ℕ) (o : Option FileTransfer)
        → Keeps (CanRollBack Q before) (reset_found scope id o)
    reset_found-CanRollBack scope id none = Keeps-throw _
    reset_found-CanRollBack scope id (some t) =
        Keeps-if (is_success t.status) _ _ (λ _. Keeps-throw _)
          λ _. Keeps-bind (reset_scoped scope id) _ (reset_scoped-CanRollBack scope id) λ _.
            Keeps-bind (find_scoped scope id) _ (find_scoped-CanRollBack scope id)
              (or_fail-CanRollBack id)

    reset_batch-CanRollBack :
        (dto : RetryBatch) (scope : Scope) → Keeps (CanRollBack Q before) (reset_batch dto scope)
    unfolding reset_batch
    reset_batch-CanRollBack dto scope =
        Keeps-bind _ _ (Keeps-call _ (record { at = λ w h. h }) (λ n. record { at = λ w h. h }))
          λ found.
            Keeps-bind _ _ (Keeps-for_each found _ (λ t. reset_scoped-CanRollBack scope t.id))
              λ _. Keeps-pure _

  pub retry-Keeps : (id : ℕ) (user : AuthUser) → Keeps (Holds Q) (retry id user)
  unfolding retry
  retry-Keeps id user =
      Keeps-bind _ _
        (scoped-Keeps Q user _ (λ before scope.
          Keeps-bind (find_scoped scope id) _ (find_scoped-CanRollBack before scope id)
            (reset_found-CanRollBack before scope id)))
        λ t. Keeps-bind _ _ (add_transfer_job-Keeps _) (λ _. Keeps-pure t)

  pub retry_batch-Keeps :
      (dto : RetryBatch) (user : AuthUser) → Keeps (Holds Q) (retry_batch dto user)
  unfolding retry_batch
  retry_batch-Keeps dto user =
      Keeps-if (is_success (batch_status dto)) _ _ (λ _. Keeps-throw _)
        λ _.
          Keeps-bind (scoped user (reset_batch dto)) _
            (scoped-Keeps Q user (reset_batch dto)
              (λ before scope. reset_batch-CanRollBack before dto scope))
            λ ids.
              Keeps-bind _ _ (Keeps-for_each ids _ (λ id. add_transfer_job-Keeps _))
                (λ _. Keeps-pure ids)
