-- ===== src/Http/Access/Reading.antt =====
-- The handlers that only read: what they keep (the controllers of nestjs-app/src).
use basket_shared.Prelude.{ℕ, ◌≡◌, Bool, true, false, not, ◌&&◌, Option, none, some, Text, is_empty}
use basket_shared.World.Entities.{FileTransfer, TransferStatus, AuthUser, is_success}
use basket_shared.World.State.{World}
use basket_shared.World.Monad.{Outcome, ok, thrown, crashed, Async, pure, call, ◌>>=◌}
use basket_shared.World.Keeps.{
  Keeps, Stable, Restorable, Keeps-pure, Keeps-throw, Keeps-call, Keeps-if, Keeps-transaction,
  Keeps-bind,
}
use basket_shared.Auth.{
  AuthConfig, check_password, or_unauthorized, validate_user, login, find_user,
}
use basket_shared.Quota.{QuotaConfig, get_usage, summary}
use basket_shared.Events.{list_subscriptions}
use basket_shared.Storage.{get_object}
use basket_shared.Crypto.{Bytes, Gcm}
use basket_shared.Crypto.Service.{CryptoService}
use basket_shared.Transfers
use basket_shared.Transfers.{
  Scope, scoped, is_admin, list_scoped, find_scoped, or_missing, get_by_id, object_of, opened,
  data_key, download,
}
use basket_shared.Http.{
  HttpConfig, Request, Call, on_upload, log_in, list_all, get_one, download_one, retry_many,
  retry_one, create_one, list_own, remove_one, create_account, read_usage, Reply, handle_call,
  handle_login, handle_list, handle_usage, guarded, with_user, call_with, token_for, transfers,
  transfer, file, subscriptions, usage, usage_tenant,
}

-- Whether a handler only reads.
abbrev pub only_reads : Call → Bool
only_reads (log_in username password) = true
only_reads (list_all status limit offset) = true
only_reads (get_one id) = true
only_reads (download_one id) = true
only_reads list_own = true
only_reads (read_usage tenant) = true
only_reads _ = false

-- The operations that only read, under any invariant that survives a call and a rollback.
module _ (P : World → Type 0) (stable : Stable P) (back : Restorable P) where
  reading-Keeps : {A : Type 0} (f : ℕ → World → A) → Keeps P (call (λ n w. (ok (f n w), w)))
  reading-Keeps f = Keeps-call _ stable (λ n. record { at = λ w h. h })

  pub scoped-Keeps :
      {A : Type 0} (user : AuthUser) (work : Scope → Async A)
      → ((s : Scope) → Keeps P (work s))
      → Keeps P (scoped user work)
  unfolding scoped
  scoped-Keeps user work k =
      Keeps-if (is_admin user) (work none) _ (λ _. k none)
        λ _. Keeps-transaction _ stable back (
          Keeps-bind (call (λ n w. (ok tt, w))) _ (reading-Keeps (λ n w. tt))
            (λ _. k (some user.tenant_id)))

  list-Keeps :
      (status : Option TransferStatus) (limit offset : ℕ) (user : AuthUser)
      → Keeps P (Transfers.list status limit offset user)
  unfolding Transfers.list list_scoped
  list-Keeps status limit offset user =
      scoped-Keeps user (list_scoped status limit offset) (λ s. reading-Keeps _)

  or_missing-Keeps : (id : ℕ) (o : Option FileTransfer) → Keeps P (or_missing id o)
  or_missing-Keeps id none = Keeps-throw _
  or_missing-Keeps id (some t) = Keeps-pure t

  find_scoped-Keeps : (id : ℕ) (s : Scope) → Keeps P (find_scoped s id)
  unfolding find_scoped
  find_scoped-Keeps id s = reading-Keeps _

  get_by_id-Keeps : (id : ℕ) (user : AuthUser) → Keeps P (get_by_id id user)
  unfolding get_by_id
  get_by_id-Keeps id user =
      Keeps-bind (scoped user (λ s. find_scoped s id)) (or_missing id)
        (scoped-Keeps user (λ s. find_scoped s id) (find_scoped-Keeps id)) (or_missing-Keeps id)

  object_of-Keeps : (t : FileTransfer) (key : Option Text) → Keeps P (object_of t key)
  object_of-Keeps t none = Keeps-throw _
  object_of-Keeps t (some key) =
      Keeps-if (is_success t.status && not (is_empty key)) _ _ (λ _. Keeps-pure _)
        (λ _. Keeps-throw _)

  download-Keeps :
      (g : Gcm) (s : CryptoService) (id : ℕ) (user : AuthUser) → Keeps P (download g s id user)
  unfolding download get_object
  download-Keeps g s id user = Keeps-bind (get_by_id id user) _ (get_by_id-Keeps id user) λ t.
      Keeps-bind (object_of t t.object_key) _ (object_of-Keeps t t.object_key) λ d.
        Keeps-bind (get_object d.bucket d.key) _
          (Keeps-call _ stable (λ n. record { at = λ w h. h }))
          λ o.
            Keeps-bind {A = Option Bytes} (λ w. (data_key g s d.wrapped_dek, w)) _
              (record { at = λ w h. h }) (λ dek. Keeps-pure (opened d o dek))

  or_unauthorized-Keeps : (o : Option AuthUser) → Keeps P (or_unauthorized o)
  or_unauthorized-Keeps none = Keeps-throw _
  or_unauthorized-Keeps (some u) = Keeps-pure u

  login-Keeps : (c : AuthConfig) (username password : Text) → Keeps P (login c username password)
  unfolding login validate_user
  login-Keeps c username password =
      Keeps-bind (validate_user c username password) or_unauthorized
        (Keeps-bind (call (λ n w. (ok (find_user username w.db.users), w))) _ (reading-Keeps _)
          (λ o. Keeps-pure (check_password c password o)))
        or_unauthorized-Keeps

  summary-Keeps : (c : QuotaConfig) (tenant : Text) → Keeps P (summary c tenant)
  unfolding summary get_usage
  summary-Keeps c tenant = Keeps-bind (get_usage tenant) _ (reading-Keeps _) (λ u. Keeps-pure _)

  list_subscriptions-Keeps : (user : AuthUser) → Keeps P (list_subscriptions user)
  unfolding list_subscriptions
  list_subscriptions-Keeps user = reading-Keeps _

  pub guarded-Keeps : (o : Outcome Bool) (m : Async Reply) → Keeps P m → Keeps P (guarded o m)
  guarded-Keeps (ok b) m k = k
  guarded-Keeps (thrown e) m k = Keeps-throw e
  guarded-Keeps crashed m k = record { at = λ w h. h }

  call_with-Keeps :
      (f : AuthUser → Async Reply) (o : Option AuthUser)
      → ((u : AuthUser) → Keeps P (f u))
      → Keeps P (call_with f o)
  call_with-Keeps f none k = Keeps-throw _
  call_with-Keeps f (some u) k = k u

  -- A handler that passes an operation's result on.
  pub passing_on :
      {A : Type 0} (r : Request) (m : AuthUser → Async A) (reply : A → Reply)
      → ((u : AuthUser) → Keeps P (m u))
      → Keeps P (with_user r (λ u. m u >>= λ a. pure (reply a)))
  passing_on r m reply k =
      call_with-Keeps _ r.principal (λ u. Keeps-bind (m u) _ (k u) (λ a. Keeps-pure (reply a)))

  pub reading_call-Keeps :
      (c : HttpConfig) (r : Request) (q : Call) → only_reads q ≡ true → Keeps P (handle_call c r q)
  unfolding handle_call handle_login handle_list handle_usage
  reading_call-Keeps c r (log_in username password) e =
      Keeps-bind (login c.auth username password) _ (login-Keeps c.auth username password)
        (λ u. Keeps-pure (token_for u))
  reading_call-Keeps c r (list_all status limit offset) e =
      passing_on r _ transfers (list-Keeps status limit offset)
  reading_call-Keeps c r (get_one id) e = passing_on r _ transfer (get_by_id-Keeps id)
  reading_call-Keeps c r (download_one id) e =
      passing_on r _ file (download-Keeps c.gcm c.crypto id)
  reading_call-Keeps c r list_own e = passing_on r _ subscriptions list_subscriptions-Keeps
  reading_call-Keeps c r (read_usage tenant) e =
      passing_on r (λ user. summary c.quota (usage_tenant user tenant)) usage
        (λ user. summary-Keeps c.quota (usage_tenant user tenant))
  reading_call-Keeps c r (on_upload payload carrier) e = cc
  reading_call-Keeps c r (retry_many dto) e = cc
  reading_call-Keeps c r (retry_one id) e = cc
  reading_call-Keeps c r (create_one dto random) e = cc
  reading_call-Keeps c r (remove_one id) e = cc
  reading_call-Keeps c r (create_account dto) e = cc
