-- ===== src/Http.antt =====
-- The HTTP interface: the controllers with their guards, roles and status codes
-- (ingestion/transfers.controller.ts, ingestion/ingestion.controller.ts,
-- events/subscriptions.controller.ts, auth/users.controller.ts, auth/auth.controller.ts,
-- quota/usage.controller.ts), and common/filters/all-exceptions.filter.ts.
-- A request that the rate limiter or the validation of its parameters refuses changes nothing, and
-- is not modelled; of a bearer token, what passport makes of it is given with the request.
pub mod Filter
pub mod Access
pub mod Accounts
pub mod Tests
use basket_shared.Prelude.{
  ℕ, Bool, true, false, ◌&&◌, not, Option, none, some, List, [], ◌∷◌, if◌then◌else◌, Text, is_empty,
}
use basket_shared.World.Entities.{
  Carrier, FileTransfer, TransferStatus, EventSubscription, User, AuthUser, Role, admin, operator,
  viewer, service_failed,
}
use basket_shared.World.Monad.{
  Failure, error, Outcome, ok, thrown, crashed, Async, pure, throw, ◌>>=◌, ◌>>◌,
}
use basket_shared.Ingestion.{IngestionConfig, SftpgoWebhook, AcceptOutcome, accept}
use basket_shared.Auth.{
  AuthConfig, CreateUser, login, create_user, can_activate_webhook, can_activate_roles,
}
use basket_shared.Quota.{Quota, Usage, QuotaConfig, summary}
use basket_shared.Events.{
  CreateSubscription, create_subscription, list_subscriptions, remove_subscription,
}
use basket_shared.Transfers
use basket_shared.Crypto.{Gcm}
use basket_shared.Crypto.Service.{CryptoService}
use basket_shared.Transfers.{
  Page, DownloadResult, RetryBatch, get_by_id, download, retry, retry_batch, is_admin,
}

pub record HttpConfig : Type 0 where
  pub ingestion : IngestionConfig
  pub auth : AuthConfig
  pub quota : QuotaConfig
  pub gcm : Gcm
  pub crypto : CryptoService
  pub webhook_secret : Text
  pub unauthenticated : Failure  -- what passport's guard throws
  pub denied : Failure  -- what Nest throws where a guard returns false

-- `principal` is what JwtStrategy makes of a bearer token that passport accepts.
pub record Request : Type 0 where
  pub principal : Option AuthUser
  pub header_token : Option Text
  pub query_token : Option Text

-- A handler, with its parameters.
pub data Call : Type 0 where
  on_upload : (payload : SftpgoWebhook) (carrier : Carrier) → Call
  log_in : (username password : Text) → Call
  list_all : (status : Option TransferStatus) (limit offset : ℕ) → Call
  get_one : (id : ℕ) → Call
  download_one : (id : ℕ) → Call
  retry_many : (dto : RetryBatch) → Call
  retry_one : (id : ℕ) → Call
  create_one : (dto : CreateSubscription) (random : Text) → Call
  list_own : Call
  remove_one : (id : ℕ) → Call
  create_account : (dto : CreateUser) → Call
  read_usage : (tenant : Option Text) → Call

pub data Reply : Type 0 where
  outcome : AcceptOutcome → Reply
  token_for : AuthUser → Reply
  transfers : Page → Reply
  transfer : FileTransfer → Reply
  file : DownloadResult → Reply
  requeued : List ℕ → Reply
  subscription : EventSubscription → Reply
  subscriptions : List EventSubscription → Reply
  nothing : Reply
  account : User → Reply
  usage : Text × Usage × Quota → Reply

pub data Guard : Type 0 where
  webhook_auth_guard jwt_auth_guard roles_guard : Guard

-- `@UseGuards`, of the class or of the handler.
unfoldable pub guards : Call → List Guard
guards (on_upload payload carrier) = webhook_auth_guard ∷ []
guards (log_in username password) = []
guards _ = jwt_auth_guard ∷ roles_guard ∷ []

abbrev pub readers : List Role
readers = viewer ∷ operator ∷ admin ∷ []

abbrev pub writers : List Role
writers = operator ∷ admin ∷ []

-- `@Roles`
unfoldable pub required_roles : Call → Option (List Role)
required_roles (list_all status limit offset) = some readers
required_roles (get_one id) = some readers
required_roles (download_one id) = some readers
required_roles (retry_many dto) = some writers
required_roles (retry_one id) = some writers
required_roles (create_one dto random) = some writers
required_roles list_own = some readers
required_roles (remove_one id) = some writers
required_roles (create_account dto) = some (admin ∷ [])
required_roles _ = none

-- `@HttpCode`, or what Nest answers to the method.
unfoldable pub success_status : Call → ℕ
success_status (create_one dto random) = 201
success_status (remove_one id) = 204
success_status (create_account dto) = 201
success_status _ = 200

-- JwtAuthGuard
abbrev pub authenticated : HttpConfig → Option AuthUser → Outcome Bool
authenticated c none = thrown c.unauthenticated
authenticated c (some u) = ok true

unfoldable pub run_guard : HttpConfig → Request → Call → Guard → Outcome Bool
unfolding can_activate_webhook can_activate_roles required_roles
run_guard c r call webhook_auth_guard =
    can_activate_webhook c.webhook_secret r.header_token r.query_token
run_guard c r call jwt_auth_guard = authenticated c r.principal
run_guard c r call roles_guard = can_activate_roles (required_roles call) r.principal

abbrev pub after_guard : HttpConfig → Outcome Bool → Outcome Bool → Outcome Bool
after_guard c (ok true) rest = rest
after_guard c (ok false) rest = thrown c.denied
after_guard c (thrown e) rest = thrown e
after_guard c crashed rest = crashed

-- The guards in their order, up to the first that does not let the request through.
unfoldable pub run_guards : HttpConfig → Request → Call → List Guard → Outcome Bool
unfolding run_guard
run_guards c r call [] = ok true
run_guards c r call (g ∷ gs) = after_guard c (run_guard c r call g) (run_guards c r call gs)

-- `@CurrentUser()`. Without a user the handler reads a property of undefined.
abbrev pub call_with : (AuthUser → Async Reply) → Option AuthUser → Async Reply
call_with f none = throw (error service_failed)
call_with f (some u) = f u

abbrev pub with_user : Request → (AuthUser → Async Reply) → Async Reply
with_user r f = call_with f r.principal

abbrev pub named_tenant : AuthUser → Option Text → Text
named_tenant user none = user.tenant_id
named_tenant user (some t) = if not (is_empty t) && is_admin user then t else user.tenant_id

-- The tenant whose usage is shown: only administrators may name another.
unfoldable pub usage_tenant : AuthUser → Option Text → Text
usage_tenant user tenant = named_tenant user tenant

-- The handlers of the other controllers.
unfoldable pub handle_webhook : HttpConfig → SftpgoWebhook → Carrier → Async Reply
unfolding ◌>>=◌ pure accept
handle_webhook c payload carrier = do o ← accept c.ingestion payload carrier; pure (outcome o)

unfoldable pub handle_login : HttpConfig → (username password : Text) → Async Reply
unfolding ◌>>=◌ pure login
handle_login c username password = do u ← login c.auth username password; pure (token_for u)

unfoldable pub handle_create_user : HttpConfig → CreateUser → Async Reply
unfolding ◌>>=◌ pure create_user
handle_create_user c dto = do u ← create_user c.auth dto; pure (account u)

unfoldable pub handle_create : Request → CreateSubscription → Text → Async Reply
unfolding ◌>>=◌ pure create_subscription throw
handle_create r dto random =
    with_user r (λ user. create_subscription user dto random >>= λ s. pure (subscription s))

unfoldable pub handle_list : Request → Async Reply
unfolding ◌>>=◌ pure list_subscriptions throw
handle_list r = with_user r (λ user. list_subscriptions user >>= λ s. pure (subscriptions s))

unfoldable pub handle_remove : Request → ℕ → Async Reply
unfolding ◌>>=◌ pure remove_subscription throw
handle_remove r id = with_user r (λ user. remove_subscription user id >>= λ _. pure nothing)

unfoldable pub handle_usage : HttpConfig → Request → Option Text → Async Reply
unfolding ◌>>=◌ pure usage_tenant summary throw
handle_usage c r tenant =
    with_user r (λ user. summary c.quota (usage_tenant user tenant) >>= λ s. pure (usage s))

unfoldable pub handle_call : HttpConfig → Request → Call → Async Reply
unfolding ◌>>=◌ pure throw Transfers.list get_by_id download retry_batch retry handle_webhook
    handle_login handle_create_user handle_create handle_list handle_remove handle_usage
handle_call c r (on_upload payload carrier) = handle_webhook c payload carrier
handle_call c r (log_in username password) = handle_login c username password
handle_call c r (list_all status limit offset) =
    with_user r (λ user. Transfers.list status limit offset user >>= λ p. pure (transfers p))
handle_call c r (get_one id) = with_user r (λ user. get_by_id id user >>= λ t. pure (transfer t))
handle_call c r (download_one id) =
    with_user r (λ user. download c.gcm c.crypto id user >>= λ d. pure (file d))
handle_call c r (retry_many dto) =
    with_user r (λ user. retry_batch dto user >>= λ ids. pure (requeued ids))
handle_call c r (retry_one id) = with_user r (λ user. retry id user >>= λ t. pure (transfer t))
handle_call c r (create_one dto random) = handle_create r dto random
handle_call c r list_own = handle_list r
handle_call c r (remove_one id) = handle_remove r id
handle_call c r (create_account dto) = handle_create_user c dto
handle_call c r (read_usage tenant) = handle_usage c r tenant

abbrev pub guarded : Outcome Bool → Async Reply → Async Reply
guarded (ok b) m = m
guarded (thrown e) m = throw e
guarded crashed m = λ w. (crashed, w)

-- A request from its guards to its reply.
unfoldable pub respond : HttpConfig → Request → Call → Async Reply
unfolding run_guards guards handle_call throw
respond c r call = guarded (run_guards c r call (guards call)) (handle_call c r call)
