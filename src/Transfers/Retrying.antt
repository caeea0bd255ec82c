-- ===== src/Transfers/Retrying.antt =====
-- What `retry` of transfers.service.ts has done when it returns.
use basket_shared.Prelude.{
  ℕ, ◌≡◌, refl, inl, inr, true, Option, none, some, List, [], ◌∷◌, ◌==◌, Bool-cases, In, In-snoc,
}
use basket_shared.World.Entities.{FileTransfer, pending, TransferJobData, AuthUser, is_success}
use basket_shared.World.State.{World, ticked}
use basket_shared.World.Monad.{ok, Async, call, ◌>>=◌, pure, throw}
use basket_shared.World.Triples.{
  Triple, Triple-call, Triple-bind, Triple-of_Keeps, Triple-transaction, Anything,
}
use basket_shared.World.Endings.{ok_result}
use basket_shared.Repository.{reset_patch}
use basket_shared.Repository.Table.{find_by_id}
use basket_shared.Outbox.{add_transfer_job}
use basket_shared.Transfers.{
  Scope, visible, is_admin, scoped, seen, find_scoped, update_seen, reset_scoped, or_fail,
  reset_found, retry,
}

-- The row is as a reset leaves it.
pub record IsReset (t : FileTransfer) : Type 0 where
  pub status : t.status ≡ pending
  pub attempts : t.attempts ≡ 0
  pub error_log : t.error_log ≡ none

abbrev Each : (FileTransfer → Type 0) → Option FileTransfer → Type 0
Each P none = Unit
Each P (some t) = P t

-- A reset does not change who sees the row.
visible-reset :
    (scope : Scope) (t : FileTransfer) (now : ℕ)
    → visible scope t ≡ true
    → visible scope (record (reset_patch t) { updated_at = now }) ≡ true
unfolding visible
visible-reset none t now v = refl
visible-reset (some s) t now v = v

update_seen-IsReset :
    (scope : Scope) (id now : ℕ) (rows : List FileTransfer)
    → Each IsReset (find_by_id id (seen scope (update_seen scope id now reset_patch rows)))
unfolding find_by_id update_seen
update_seen-IsReset scope id now [] = tt
update_seen-IsReset scope id now (t ∷ rows) = elim (Bool-cases (visible scope t)) [
  | inr v ↦ rw (v, v) (update_seen-IsReset scope id now rows)
  | inl v ↦ elim (Bool-cases (t.id == id)) [
    | inl e ↦
        rw (v, e)
          (rw (visible-reset scope t now v, e)
            (record { status = refl; attempts = refl; error_log = refl }))
    | inr e ↦ rw (v, e) (rw (v, e) (update_seen-IsReset scope id now rows))
  ]
]

module _ (scope : Scope) (id : ℕ) where
  -- The row `id` of the scope, if it is there, is reset.
  abbrev HasReset : World → Type 0
  HasReset w = Each IsReset (find_by_id id (seen scope w.db.transfers))

  reset_scoped-HasReset : Triple Anything (reset_scoped scope id) (λ _. HasReset) Anything
  unfolding reset_scoped
  reset_scoped-HasReset =
      Triple-call _ (λ w h. tt) (λ _ w h. tt)
        λ n w h. update_seen-IsReset scope id (w.services.clock n) w.db.transfers

  find_again-IsReset : Triple HasReset (find_scoped scope id) (λ o _. Each IsReset o) Anything
  unfolding find_scoped
  find_again-IsReset = Triple-call _ (λ w h. tt) (λ _ w h. tt) (λ n w h. h)

  or_fail-IsReset :
      (o : Option FileTransfer)
      → Triple (λ _. Each IsReset o) (or_fail id o) (λ t _. IsReset t) Anything
  unfolding throw pure
  or_fail-IsReset none = record { at = λ w h. tt }
  or_fail-IsReset (some t) = record { at = λ w h. h }

  reset_found-IsReset :
      (o : Option FileTransfer)
      → Triple Anything (reset_found scope id o) (λ t _. IsReset t) Anything
  unfolding throw
  reset_found-IsReset none = record { at = λ w h. tt }
  reset_found-IsReset (some t) = elim (Bool-cases (is_success t.status)) [
    | inl e ↦ rw e (record { at = λ w h. tt })
    | inr e ↦ rw e (
        Triple-bind (reset_scoped scope id) _ reset_scoped-HasReset
          λ _. Triple-bind (find_scoped scope id) _ find_again-IsReset or_fail-IsReset)
  ]

anything : {A : Type 0} (m : Async A) → Triple Anything m (λ _. Anything) Anything
anything m = Triple-of_Keeps (record { at = λ w h. tt })

scoped-Triple :
    {A : Type 0} {Q : A → World → Type 0} (user : AuthUser) (work : Scope → Async A)
    → ((a : A) (w : World) → Q a w → Q a (ticked w))
    → ((scope : Scope) → Triple Anything (work scope) Q Anything)
    → Triple Anything (scoped user work) Q Anything
unfolding scoped
scoped-Triple user work s k = elim (Bool-cases (is_admin user)) [
  | inl e ↦ rw e (k none)
  | inr e ↦ rw e (
      Triple-transaction (call (λ n w. (ok tt, w)) >>= λ _. work (some user.tenant_id)) s (
        Triple-bind (call (λ n w. (ok tt, w))) _ (anything {A = Unit {0}} _)
          (λ _. k (some user.tenant_id))))
]

retry-Triple :
    (id : ℕ) (user : AuthUser)
    → Triple Anything
        (retry id user)
        (λ t w. IsReset t × In (record { transfer_id = id; carrier = none }) w.transfer_jobs)
        Anything
unfolding retry add_transfer_job
retry-Triple id user =
    let job : TransferJobData = record { transfer_id = id; carrier = none } in
    Triple-bind (scoped user (λ scope. find_scoped scope id >>= reset_found scope id)) _
      (scoped-Triple {Q = λ t _. IsReset t} user
        (λ scope. find_scoped scope id >>= reset_found scope id) (λ t w h. h)
        (λ scope. Triple-bind (find_scoped scope id) _ (anything _) (reset_found-IsReset scope id)))
      λ t.
        Triple-bind {Q = λ _ w. IsReset t × In job w.transfer_jobs} (add_transfer_job job) _
          (Triple-call _ (λ w h. tt) (λ _ w h. tt) (λ n w h. (h, In-snoc job w.transfer_jobs)))
          (λ _. record { at = λ w h. h })

-- A retry that returns gives the row as it is after the reset, PENDING, with no attempts and no
-- error, and has added a job for it to the queue.
retry-IsReset :
    (id : ℕ) (user : AuthUser) (w : World) (t : FileTransfer)
    → (retry id user w).0 ≡ ok t
    → IsReset t × In (record { transfer_id = id; carrier = none }) (retry id user w).1.transfer_jobs
retry-IsReset id user w t e = ok_result (retry-Triple id user) w tt t e
