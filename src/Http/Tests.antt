-- ===== src/Http/Tests.antt =====
-- Requests of a viewer and of nobody, and the answers to exceptions.
use basket_shared.Prelude.{false, ◌≡◌, refl, true, Option, none, some, [], ◌∷◌, text}
use basket_shared.World.Entities.{AuthUser, viewer, admin, requires_role, invalid_credentials}
use basket_shared.World.Monad.{unauthorized, forbidden, thrown, ok}
use basket_shared.Auth.{CreateUser}
use basket_shared.Http.{
  HttpConfig, Request, retry_one, create_account, respond, run_guards, guards, usage_tenant,
}
use basket_shared.Http.Filter.{HttpException, bare, literal, http, other, catch_exception}
use basket_shared.Http.Access.{SameStores, respond-SameStores}
use basket_shared.Http.Accounts.{SameUsers, respond-SameUsers}
use basket_shared.Samples.{calm, with_rows, ingestion, alice, acme}

abbrev config : HttpConfig
config = record {
  ingestion = ingestion;
  auth = record {
    hash = λ n p. p;
    compare = λ p h. true;
    admin_username = text "admin";
    admin_password = text "admin";
    default_tenant = text "default";
  };
  gcm = record {
    keystream = λ key iv n b. b;
    auth_tag = λ key iv c. [];
    verify = λ key iv c tag. true;
  };
  crypto = record { enabled = false; kek = none };
  quota = record { default_max_bytes = 10; default_max_objects = 2; tenants = [] };
  webhook_secret = text "hook";
  unauthenticated = unauthorized invalid_credentials;
  denied = forbidden requires_role;
}

abbrev request_of : Option AuthUser → Request
request_of user = record { principal = user; header_token = none; query_token = none }

abbrev onlooker : AuthUser
onlooker = record alice { roles = viewer ∷ [] }

abbrev newcomer : CreateUser
newcomer = record {
  username = text "mallory";
  password = text "12345678";
  roles = admin ∷ [];
  tenant_id = none;
}

respond-SameStores_example :
    SameStores
      (with_rows calm)
      (respond config (request_of (some onlooker)) (retry_one 1) (with_rows calm)).1
respond-SameStores_example =
    respond-SameStores config (request_of (some onlooker)) (retry_one 1) (with_rows calm) refl refl

respond-SameUsers_example :
    SameUsers
      (with_rows calm)
      (respond config (request_of (some alice)) (create_account newcomer) (with_rows calm)).1
respond-SameUsers_example =
    respond-SameUsers config (request_of (some alice)) (create_account newcomer) (with_rows calm)
      refl

viewer_is_refused :
    (respond config (request_of (some onlooker)) (retry_one 1) (with_rows calm)).0
    ≡ thrown (forbidden requires_role)
unfolding respond run_guards guards
viewer_is_refused = refl

nobody_is_refused :
    (respond config (request_of none) (retry_one 1) (with_rows calm)).0
    ≡ thrown (unauthorized invalid_credentials)
unfolding respond run_guards guards
nobody_is_refused = refl

operator_is_let_through :
    run_guards config (request_of (some alice)) (retry_one 1) (guards (retry_one 1)) ≡ ok true
unfolding run_guards guards
operator_is_let_through = refl

-- A tenant's name in the query counts for administrators only.
own_usage : usage_tenant alice (some (text "globex")) ≡ acme
unfolding usage_tenant
own_usage = refl

-- What ThrottlerGuard throws holds a string.
abbrev too_many : HttpException
too_many = record {
  status = 429;
  name = text "ThrottlerException";
  message = literal (text "ThrottlerException: Too Many Requests");
  body = bare (literal (text "ThrottlerException: Too Many Requests"));
}

too_many_is_labelled :
    (catch_exception (http too_many) (text "/v1/transfers") 5).body.error
    ≡ text "InternalServerError"
unfolding catch_exception
too_many_is_labelled = refl

others_are_logged : (catch_exception other (text "/v1/transfers") 5).logged ≡ true
unfolding catch_exception
others_are_logged = refl
