-- ===== src/Transfers/Others.antt =====
-- Tenant isolation of transfers.service.ts: what a user who is no administrator cannot change.
use basket_shared.Prelude.{
  ℕ, ◌≡◌, refl, ◌∙◌, inl, inr, false, not, Option, none, some, List, [], ◌∷◌, filter, ◌==◌,
  Bool-cases, Text, text_eq, is_empty,
}
use basket_shared.World.Entities.{FileTransfer, TransferJobData, AuthUser, is_success}
use basket_shared.World.State.{World}
use basket_shared.World.Monad.{ok, Async, call, ◌>>=◌}
use basket_shared.World.Keeps.{
  Keeps, Stable, Keeps-pure, Keeps-throw, Keeps-call, Keeps-if, Keeps-bind, Keeps-for_each,
  Keeps-transaction,
}
use basket_shared.Repository.{reset_patch}
use basket_shared.Outbox.{add_transfer_job}
use basket_shared.Transfers.{
  Scope, visible, scoped, find_scoped, update_seen, reset_scoped, or_fail, reset_found, retry,
  RetryBatch, batch_status, reset_batch, retry_batch,
}
use basket_shared.Transfers.Isolation.{IsTenantUser}

-- The rows of the other tenants.
abbrev pub others : Text → List FileTransfer → List FileTransfer
others tenant rows = filter (λ t. not (text_eq t.tenant_id tenant)) rows

module _ (tenant : Text) (named : is_empty tenant ≡ false) where
  others-update_seen :
      (id now : ℕ) (rows : List FileTransfer)
      → others tenant (update_seen (some tenant) id now reset_patch rows) ≡ others tenant rows
  unfolding update_seen visible
  others-update_seen id now [] = refl
  others-update_seen id now (t ∷ rows) = elim (Bool-cases (text_eq t.tenant_id tenant)) [
    | inl e ↦ elim (Bool-cases (t.id == id)) [
      | inl i ↦ rw (named, e, i) (rw e (others-update_seen id now rows))
      | inr i ↦ rw (named, e, i) (rw e (others-update_seen id now rows))
    ]
    | inr e ↦ rw (named, e) (rw e (rw (others-update_seen id now rows) refl))
  ]

module _ (user : AuthUser) (one : IsTenantUser user) where
  abbrev tenant : Text
  tenant = user.tenant_id

  -- The rows of the other tenants are `kept`, also if the tables are put back.
  abbrev KeepsOthers : List FileTransfer → World → Type 0
  KeepsOthers kept w = others tenant w.db.transfers ≡ kept

  others-Stable : (kept : List FileTransfer) → Stable (KeepsOthers kept)
  others-Stable kept = record { at = λ w h. h }

  module _ (kept : List FileTransfer) where
    reset_scoped-others : (id : ℕ) → Keeps (KeepsOthers kept) (reset_scoped (some tenant) id)
    unfolding reset_scoped
    reset_scoped-others id = Keeps-call _ (others-Stable kept) λ n. record {
      at = λ w h. others-update_seen tenant one.named id (w.services.clock n) w.db.transfers ∙ h;
    }

    find_scoped-others : (id : ℕ) → Keeps (KeepsOthers kept) (find_scoped (some tenant) id)
    unfolding find_scoped
    find_scoped-others id = Keeps-call _ (others-Stable kept) (λ n. record { at = λ w h. h })

    or_fail-others : (id : ℕ) (o : Option FileTransfer) → Keeps (KeepsOthers kept) (or_fail id o)
    or_fail-others id none = Keeps-throw _
    or_fail-others id (some t) = Keeps-pure t

    reset_found-others :
        (id : ℕ) (o : Option FileTransfer)
        → Keeps (KeepsOthers kept) (reset_found (some tenant) id o)
    reset_found-others id none = Keeps-throw _
    reset_found-others id (some t) =
        Keeps-if (is_success t.status) _ _ (λ _. Keeps-throw _)
          λ _. Keeps-bind (reset_scoped (some tenant) id) _ (reset_scoped-others id) λ _.
            Keeps-bind (find_scoped (some tenant) id) _ (find_scoped-others id) (or_fail-others id)

    reset_batch-others :
        (dto : RetryBatch) → Keeps (KeepsOthers kept) (reset_batch dto (some tenant))
    unfolding reset_batch
    reset_batch-others dto =
        Keeps-bind _ _ (Keeps-call _ (others-Stable kept) (λ n. record { at = λ w h. h })) λ found.
          Keeps-bind _ _ (Keeps-for_each found _ (λ t. reset_scoped-others t.id)) λ _. Keeps-pure _

    add_transfer_job-others :
        (job : TransferJobData) → Keeps (KeepsOthers kept) (add_transfer_job job)
    unfolding add_transfer_job
    add_transfer_job-others job = Keeps-call _ (others-Stable kept) (λ n. record { at = λ w h. h })

    scoped-others :
        {A : Type 0} (work : Scope → Async A)
        → Keeps (KeepsOthers kept) (work (some tenant))
        → Keeps (KeepsOthers kept) (scoped user work)
    unfolding scoped
    scoped-others {A} work k = rw one.plain (
        Keeps-transaction (call (λ n w. (ok tt, w)) >>= λ _. work (some tenant))
          (others-Stable kept) (record { at = λ v w h h'. h })
          (Keeps-bind (call (λ n w. (ok tt, w))) _
            (Keeps-call {A = Unit {0}} (λ n w. (ok tt, w)) (others-Stable kept)
              (λ n. record { at = λ w h. h }))
            (λ _. k)))

    retry-Keeps : (id : ℕ) → Keeps (KeepsOthers kept) (retry id user)
    unfolding retry
    retry-Keeps id =
        Keeps-bind _ _
          (scoped-others (λ scope. find_scoped scope id >>= reset_found scope id)
            (Keeps-bind _ _ (find_scoped-others id) (reset_found-others id)))
          λ t. Keeps-bind _ _ (add_transfer_job-others _) (λ _. Keeps-pure t)

    retry_batch-Keeps : (dto : RetryBatch) → Keeps (KeepsOthers kept) (retry_batch dto user)
    unfolding retry_batch
    retry_batch-Keeps dto =
        Keeps-if (is_success (batch_status dto)) _ _ (λ _. Keeps-throw _)
          λ _.
            Keeps-bind (scoped user (reset_batch dto)) _
              (scoped-others (reset_batch dto) (reset_batch-others dto))
              λ ids.
                Keeps-bind _ _ (Keeps-for_each ids _ (λ id. add_transfer_job-others _))
                  (λ _. Keeps-pure ids)

-- A retry by a user who is no administrator, and whose tenant is not empty, leaves every row of
-- every other tenant as it is, however it ends.
pub retry-others :
    (user : AuthUser) (id : ℕ) (w : World)
    → IsTenantUser user
    → others user.tenant_id (retry id user w).1.db.transfers ≡ others user.tenant_id w.db.transfers
retry-others user id w one =
    (retry-Keeps user one (others user.tenant_id w.db.transfers) id).at w refl

-- A retry of a batch by a user who is no administrator, and whose tenant is not empty, leaves
-- every row of every other tenant as it is, however it ends.
retry_batch-others :
    (user : AuthUser) (dto : RetryBatch) (w : World)
    → IsTenantUser user
    → others user.tenant_id (retry_batch dto user w).1.db.transfers
      ≡ others user.tenant_id w.db.transfers
retry_batch-others user dto w one =
    (retry_batch-Keeps user one (others user.tenant_id w.db.transfers) dto).at w refl
