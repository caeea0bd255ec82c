-- ===== src/System/Lifecycle/Retrying.antt =====
-- `retry` and `retryBatch` of ingestion/transfers.service.ts under a row that is SUCCESS.
use basket_shared.Prelude.{
  ℕ, ◌≡◌, refl, ◌≢◌, inl, inr, Bool, true, false, ◌&&◌, Option, none, some, List, [], ◌∷◌, filter,
  not_both, All, All-take, All-filter, All-zip, filter-true,
}
use basket_shared.Outbox.{add_transfer_job}
use basket_shared.World.Entities.{
  TransferJobData, FileTransfer, TransferStatus, pending, processing, success, failed, is_success,
  status_eq, AuthUser,
}
use basket_shared.World.State.{Db}
use basket_shared.World.Monad.{for_each}
use basket_shared.World.Keeps.{
  Keeps, Keeps-pure, Keeps-throw, Keeps-call, Keeps-if, Keeps-bind, Keeps-for_each,
}
use basket_shared.World.Triples.{Triple, Triple-call, Triple-bind, Triple-of_Keeps, Keeps-of_Triple}
use basket_shared.Repository.{reset_patch, updated_before}
use basket_shared.Repository.Rows.{All-oldest_first}
use basket_shared.Sweepers.Recovery.{same_row, Spares}
use basket_shared.Transfers.{
  Scope, visible, seen, scoped, find_scoped, reset_scoped, or_fail, reset_found, retry, RetryBatch,
  batch_status, batch_matches, reset_batch, retry_batch,
}
use basket_shared.System.Neutral.{Core, Holds, Holds-stable}
use basket_shared.System.Managing.{CanRollBack, scoped-Keeps}
use basket_shared.System.Rows.{TableCore}
use basket_shared.System.Distinct.{update_seen-HasDistinctRows}
use basket_shared.System.Lifecycle.{Keys, Elsewhere, Known, find-Known, In-update_seen, open_row}

is_success_of : (s : TransferStatus) → status_eq success s ≡ true → is_success s ≡ true
is_success_of pending h = h
is_success_of processing h = h
is_success_of success h = h
is_success_of failed h = h

both_true : (a b : Bool) → (a && b) ≡ true → a ≡ true
both_true true b h = refl
both_true false b h = h

module _ (t : FileTransfer) (done : t.status ≡ success) where
  abbrev pub KeysCore : Core
  KeysCore = TableCore (Keys t)

  reset_scoped-Keys :
      (before : Db) (scope : Scope) (id : ℕ)
      → Elsewhere t id
      → Keeps (CanRollBack KeysCore before) (reset_scoped scope id)
  unfolding reset_scoped
  reset_scoped-Keys before scope id n =
      Keeps-call _ (record { at = λ w h. h })
        (λ k. record {
          at = λ w h. (
            (
              update_seen-HasDistinctRows id (w.services.clock k) reset_patch (λ r. refl) scope
                  w.db.transfers h.0.0,
              In-update_seen t scope id (w.services.clock k) reset_patch w.db.transfers n h.0.1,
            ),
            h.1,
          );
        })

  find_scoped-Known :
      (before : Db) (scope : Scope) (id : ℕ)
      → Triple
          (CanRollBack KeysCore before)
          (find_scoped scope id)
          (λ o w. Known t id o × CanRollBack KeysCore before w)
          (CanRollBack KeysCore before)
  unfolding find_scoped
  find_scoped-Known before scope id =
      Triple-call _ (λ w h. h) (λ _ w h. h.1)
        λ n w h. (
          find-Known t id (seen scope w.db.transfers) (
              All-filter (λ r. r.id ≡ t.id → r ≡ t) (visible scope) w.db.transfers
                (same_row t w.db.transfers h.0.0 h.0.1)),
          h,
        )

  or_fail-Keys :
      (before : Db) (id : ℕ) (o : Option FileTransfer)
      → Keeps (CanRollBack KeysCore before) (or_fail id o)
  or_fail-Keys before id none = Keeps-throw _
  or_fail-Keys before id (some r) = Keeps-pure r

  -- A retry of the row itself is a conflict, and a retry of another row is about another id.
  reset_found-Keys :
      (before : Db) (scope : Scope) (id : ℕ) (o : Option FileTransfer)
      → Known t id o
      → Keeps (CanRollBack KeysCore before) (reset_found scope id o)
  reset_found-Keys before scope id none k = Keeps-throw _
  reset_found-Keys before scope id (some r) (inl same) =
      Keeps-if (is_success r.status) _ _ (λ _. Keeps-throw _)
        (λ live. absurd (open_row t done r live same))
  reset_found-Keys before scope id (some r) (inr n) =
      Keeps-if (is_success r.status) _ _ (λ _. Keeps-throw _)
        λ _. Keeps-bind (reset_scoped scope id) _ (reset_scoped-Keys before scope id n) λ _.
          Keeps-bind (find_scoped scope id) _
            (Keeps-of_Triple (λ _ w h. h.1) (find_scoped-Known before scope id))
            (or_fail-Keys before id)

  queue-Keys : (job : TransferJobData) → Keeps (Holds KeysCore) (add_transfer_job job)
  unfolding add_transfer_job
  queue-Keys job = Keeps-call _ (Holds-stable KeysCore) (λ n. record { at = λ w h. h })

  pub retry-Keys : (id : ℕ) (user : AuthUser) → Keeps (Holds KeysCore) (retry id user)
  unfolding retry
  retry-Keys id user =
      Keeps-bind _ _
        (scoped-Keeps KeysCore user _ (λ before scope.
          Keeps-of_Triple (λ _ w h. h)
            (Triple-bind (find_scoped scope id) _ (find_scoped-Known before scope id) λ o. record {
              at = λ w h. (Triple-of_Keeps (reset_found-Keys before scope id o h.0)).at w h.1;
            })))
        λ r. Keeps-bind _ _ (queue-Keys _) (λ _. Keeps-pure r)

  not_matching :
      (dto : RetryBatch)
      → is_success (batch_status dto) ≡ false
      → (status_eq t.status (batch_status dto) && updated_before dto.before t) ≡ true
      → ⊥
  not_matching dto live h = not_both live (
      is_success_of (batch_status dto) (
        rw done at
          (both_true (status_eq t.status (batch_status dto)) (updated_before dto.before t) h)))

  matches-Spares :
      (dto : RetryBatch) (scope : Scope) (rows : List FileTransfer)
      → is_success (batch_status dto) ≡ false
      → All (λ r. r.id ≡ t.id → r ≡ t) rows
      → Spares t (batch_matches dto scope rows)
  unfolding batch_matches
  matches-Spares dto scope rows live h =
      let test : FileTransfer → Bool =
        λ r. status_eq r.status (batch_status dto) && updated_before dto.before r in
      let P : FileTransfer → Type 0 = λ r. r.id ≢ t.id in
      All-take P dto.limit _ (
        All-oldest_first P (λ r. r.created_at) (filter test (seen scope rows))
          (All-zip (λ r. r.id ≡ t.id → r ≡ t) (λ r. test r ≡ true) P
            (λ r same q e. not_matching dto live (rw (same e) at q)) (filter test (seen scope rows))
            (All-filter (λ r. r.id ≡ t.id → r ≡ t) test (seen scope rows)
              (All-filter (λ r. r.id ≡ t.id → r ≡ t) (visible scope) rows h))
            (filter-true test (seen scope rows))))

  reset_all-Keys :
      (before : Db) (scope : Scope) (batch : List FileTransfer)
      → Spares t batch
      → Keeps (CanRollBack KeysCore before) (for_each batch (λ r. reset_scoped scope r.id))
  unfolding for_each
  reset_all-Keys before scope [] h = Keeps-pure tt
  reset_all-Keys before scope (r ∷ batch) (n, h) =
      Keeps-bind (reset_scoped scope r.id) _ (reset_scoped-Keys before scope r.id n)
        (λ _. reset_all-Keys before scope batch h)

  reset_batch-Keys :
      (before : Db) (dto : RetryBatch) (scope : Scope)
      → is_success (batch_status dto) ≡ false
      → Keeps (CanRollBack KeysCore before) (reset_batch dto scope)
  unfolding reset_batch
  reset_batch-Keys before dto scope live =
      Keeps-of_Triple (λ _ w h. h)
        (Triple-bind _ _
          (Triple-call {Q = λ found w. Spares t found × CanRollBack KeysCore before w} _ (λ w h. h)
            (λ _ w h. h.1)
            λ n w h. (
              matches-Spares dto scope w.db.transfers live (same_row t w.db.transfers h.0.0 h.0.1),
              h,
            ))
          λ found. record {
            at = λ w h.
                (Triple-of_Keeps
                    (Keeps-bind _ _ (reset_all-Keys before scope found h.0) (λ _. Keeps-pure _))).at
                  w h.1;
          })

  pub retry_batch-Keys :
      (dto : RetryBatch) (user : AuthUser) → Keeps (Holds KeysCore) (retry_batch dto user)
  unfolding retry_batch
  retry_batch-Keys dto user =
      Keeps-if (is_success (batch_status dto)) _ _ (λ _. Keeps-throw _)
        λ live.
          Keeps-bind (scoped user (reset_batch dto)) _
            (scoped-Keeps KeysCore user (reset_batch dto)
              (λ before scope. reset_batch-Keys before dto scope live))
            λ ids. Keeps-bind _ _ (Keeps-for_each ids _ (λ id. queue-Keys _)) (λ _. Keeps-pure ids)
