-- ===== src/Http/Accounts.antt =====
-- Who may add user accounts: only handlers that ask for an administrator write the table `users`.
use basket_shared.Prelude.{
  ℕ, ◌≡◌, refl, inl, inr, Option, none, some, List, [], ◌∷◌, any, Text, ◌==◌, Bool-cases,
}
use basket_shared.World.Entities.{
  FileTransfer, TransferJobData, Carrier, AuthUser, admin, is_success, EventSubscription,
}
use basket_shared.World.State.{World}
use basket_shared.World.Monad.{Async, call, ◌>>=◌}
use basket_shared.World.Keeps.{
  Keeps, Stable, Restorable, Keeps-pure, Keeps-throw, Keeps-call, Keeps-if, Keeps-transaction,
  Keeps-bind, Keeps-catch, Keeps-for_each,
}
use basket_shared.Auth.{CreateUser}
use basket_shared.Repository.{Keeps-absorb_duplicate}
use basket_shared.Repository.Table.{CreatePendingInput, insert_transfer, inserted}
use basket_shared.Outbox.{
  create_transfer_with_outbox, write_row_and_intent, insert_intent, intent, add_transfer_job,
}
use basket_shared.Ingestion.{
  IngestionConfig, SftpgoWebhook, is_actionable, accept_source, accept, outcome_of, pending_input,
  resolve_within_root,
}
use basket_shared.Events.{
  CreateSubscription, create_subscription, remove_subscription, delete_if_found,
}
use basket_shared.Transfers.{
  Scope, RetryBatch, scoped, find_scoped, reset_scoped, reset_found, or_fail, retry, reset_batch,
  retry_batch, batch_status,
}
use basket_shared.Http.{
  HttpConfig, Request, Call, on_upload, retry_many, retry_one, create_one, remove_one,
  create_account, guards, required_roles, handle_call, handle_webhook, handle_create, handle_remove,
  respond, outcome, requeued, transfer, subscription, nothing,
}
use basket_shared.Http.Access.{
  Lacks, scoped-Keeps, guarded-Keeps, passing_on, reading_call-Keeps, refused-Keeps,
}

-- The user accounts of `w` are those of `v`.
abbrev pub SameUsers : World → World → Type 0
SameUsers v w = w.db.users ≡ v.db.users

module _ (v : World) where
  stable : Stable (SameUsers v)
  stable = record { at = λ w h. h }

  back : Restorable (SameUsers v)
  back = record { at = λ u w g h. g }

  writing :
      {A : Type 0} (f : ℕ → Async A)
      → ((n : ℕ) → Keeps (SameUsers v) (f n))
      → Keeps (SameUsers v) (call f)
  writing f k = Keeps-call f stable k

  inserted-users :
      (row : FileTransfer) (o : Option (List FileTransfer)) (w : World)
      → SameUsers v w
      → SameUsers v (inserted row o w).1
  inserted-users row none w h = h
  inserted-users row (some rows) w h = h

  insert_transfer-users :
      (input : CreatePendingInput) (n : ℕ) → Keeps (SameUsers v) (insert_transfer input n)
  unfolding insert_transfer
  insert_transfer-users input n = record { at = λ w h. inserted-users _ _ w h }

  insert_intent-users :
      (row : FileTransfer) (carrier : Carrier) (n : ℕ)
      → Keeps (SameUsers v) (insert_intent row carrier n)
  unfolding insert_intent
  insert_intent-users row carrier n = record {
    at = λ w h.
        let e = intent row carrier (w.services.uuid n) (w.services.clock n) in
        elim (Bool-cases (any (λ d. d.id == e.id) w.db.outbox)) [
          | inl clash ↦ rw clash h
          | inr free ↦ rw free h
        ];
  }

  create-users :
      (input : CreatePendingInput) (carrier : Carrier)
      → Keeps (SameUsers v) (create_transfer_with_outbox input carrier)
  unfolding create_transfer_with_outbox write_row_and_intent
  create-users input carrier =
      Keeps-catch _ _
        (Keeps-bind _ _
          (Keeps-transaction (write_row_and_intent input carrier) stable back (
            Keeps-bind _ _ (writing _ (insert_transfer-users input)) λ row.
              Keeps-bind _ _ (writing _ (insert_intent-users row carrier)) λ _. Keeps-pure row))
          (λ row. Keeps-pure (some row)))
        Keeps-absorb_duplicate

  accept_source-users :
      (c : IngestionConfig) (p : SftpgoWebhook) (carrier : Carrier) (o : Option Text)
      → Keeps (SameUsers v) (accept_source c p carrier o)
  unfolding accept_source
  accept_source-users c p carrier none = Keeps-pure _
  accept_source-users c p carrier (some s) =
      Keeps-bind _ _ (create-users (pending_input c p s) carrier)
        (λ row. Keeps-pure (outcome_of row))

  accept-users :
      (c : IngestionConfig) (p : SftpgoWebhook) (carrier : Carrier)
      → Keeps (SameUsers v) (accept c p carrier)
  unfolding accept
  accept-users c p carrier =
      Keeps-if (is_actionable p) _ _
        (λ _. accept_source-users c p carrier (resolve_within_root c p.path)) (λ _. Keeps-pure _)

  add_transfer_job-users : (job : TransferJobData) → Keeps (SameUsers v) (add_transfer_job job)
  unfolding add_transfer_job
  add_transfer_job-users job = writing _ (λ n. record { at = λ w h. h })

  reset_scoped-users : (s : Scope) (id : ℕ) → Keeps (SameUsers v) (reset_scoped s id)
  unfolding reset_scoped
  reset_scoped-users s id = writing _ (λ n. record { at = λ w h. h })

  find_scoped-users : (s : Scope) (id : ℕ) → Keeps (SameUsers v) (find_scoped s id)
  unfolding find_scoped
  find_scoped-users s id = writing _ (λ n. record { at = λ w h. h })

  or_fail-users : (id : ℕ) (o : Option FileTransfer) → Keeps (SameUsers v) (or_fail id o)
  or_fail-users id none = Keeps-throw _
  or_fail-users id (some t) = Keeps-pure t

  reset_found-users :
      (s : Scope) (id : ℕ) (o : Option FileTransfer) → Keeps (SameUsers v) (reset_found s id o)
  reset_found-users s id none = Keeps-throw _
  reset_found-users s id (some t) =
      Keeps-if (is_success t.status) _ _ (λ _. Keeps-throw _)
        λ _.
          Keeps-bind (reset_scoped s id) _ (reset_scoped-users s id)
            λ _. Keeps-bind (find_scoped s id) _ (find_scoped-users s id) (or_fail-users id)

  retry-users : (id : ℕ) (user : AuthUser) → Keeps (SameUsers v) (retry id user)
  unfolding retry
  retry-users id user =
      Keeps-bind (scoped user (λ s. find_scoped s id >>= reset_found s id)) _
        (scoped-Keeps (SameUsers v) stable back user _
          (λ s. Keeps-bind (find_scoped s id) _ (find_scoped-users s id) (reset_found-users s id)))
        λ t. Keeps-bind _ _ (add_transfer_job-users _) (λ _. Keeps-pure t)

  reset_batch-users : (dto : RetryBatch) (s : Scope) → Keeps (SameUsers v) (reset_batch dto s)
  unfolding reset_batch
  reset_batch-users dto s = Keeps-bind _ _ (writing _ (λ n. record { at = λ w h. h })) λ found.
      Keeps-bind _ _ (Keeps-for_each found _ (λ t. reset_scoped-users s t.id)) (λ _. Keeps-pure _)

  retry_batch-users :
      (dto : RetryBatch) (user : AuthUser) → Keeps (SameUsers v) (retry_batch dto user)
  unfolding retry_batch
  retry_batch-users dto user =
      Keeps-if (is_success (batch_status dto)) _ _ (λ _. Keeps-throw _)
        λ _.
          Keeps-bind (scoped user (reset_batch dto)) _
            (scoped-Keeps (SameUsers v) stable back user (reset_batch dto) (reset_batch-users dto))
            λ ids.
              Keeps-bind _ _ (Keeps-for_each ids _ (λ id. add_transfer_job-users _))
                (λ _. Keeps-pure ids)

  create_subscription-users :
      (user : AuthUser) (dto : CreateSubscription) (random : Text)
      → Keeps (SameUsers v) (create_subscription user dto random)
  unfolding create_subscription
  create_subscription-users user dto random = writing _ (λ n. record { at = λ w h. h })

  delete_if_found-users :
      (id : ℕ) (o : Option EventSubscription) → Keeps (SameUsers v) (delete_if_found id o)
  delete_if_found-users id none = Keeps-throw _
  delete_if_found-users id (some s) = writing _ (λ n. record { at = λ w h. h })

  remove_subscription-users :
      (user : AuthUser) (id : ℕ) → Keeps (SameUsers v) (remove_subscription user id)
  unfolding remove_subscription
  remove_subscription-users user id =
      Keeps-bind _ _ (writing _ (λ n. record { at = λ w h. h })) (delete_if_found-users id)

module _ (v : World) (c : HttpConfig) (r : Request) (lacks : Lacks (admin ∷ []) r) where
  guarded_call :
      (q : Call) → Keeps (SameUsers v) (handle_call c r q) → Keeps (SameUsers v) (respond c r q)
  unfolding respond
  guarded_call q k = guarded-Keeps (SameUsers v) (stable v) (back v) _ _ k

  refused_account : (dto : CreateUser) → Keeps (SameUsers v) (respond c r (create_account dto))
  unfolding respond guards required_roles
  refused_account dto =
      refused-Keeps (SameUsers v) c _ r (create_account dto) admin [] refl refl lacks

  respond-users : (q : Call) → Keeps (SameUsers v) (respond c r q)
  unfolding handle_call guards required_roles handle_webhook handle_create handle_remove
  respond-users (on_upload payload carrier) =
      guarded_call (on_upload payload carrier)
        (Keeps-bind _ _ (accept-users v c.ingestion payload carrier) (λ o. Keeps-pure (outcome o)))
  respond-users (retry_many dto) =
      guarded_call (retry_many dto)
        (passing_on (SameUsers v) (stable v) (back v) r _ requeued (retry_batch-users v dto))
  respond-users (retry_one id) =
      guarded_call (retry_one id)
        (passing_on (SameUsers v) (stable v) (back v) r _ transfer (retry-users v id))
  respond-users (create_one dto random) = guarded_call (create_one dto random) (
      passing_on (SameUsers v) (stable v) (back v) r _ subscription
        (λ user. create_subscription-users v user dto random))
  respond-users (remove_one id) = guarded_call (remove_one id) (
      passing_on (SameUsers v) (stable v) (back v) r _ (λ _. nothing)
        (λ user. remove_subscription-users v user id))
  respond-users (create_account dto) = refused_account dto
  respond-users q = guarded_call q (reading_call-Keeps (SameUsers v) (stable v) (back v) c r q refl)

-- Only an administrator adds user accounts: after any request of a caller who has not that role, or
-- of nobody, the accounts are what they were, however it ends.
pub respond-SameUsers :
    (c : HttpConfig) (r : Request) (q : Call) (w : World)
    → Lacks (admin ∷ []) r
    → SameUsers w (respond c r q w).1
respond-SameUsers c r q w lacks = (respond-users w c r lacks q).at w refl
