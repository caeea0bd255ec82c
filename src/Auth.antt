-- ===== src/Auth.antt =====
-- nestjs-app/src/auth (auth.service.ts, jwt.strategy.ts, guards/roles.guard.ts) and
-- nestjs-app/src/ingestion/guards/webhook-auth.guard.ts.
pub mod Guards
pub mod Users
pub mod Tests
use basket_shared.Prelude.{
  ℕ, ◌+◌, ◌/◌, ◌%◌, Bool, true, false, not, ◌&&◌, ◌||◌, Option, none, some, List, [], ◌∷◌, ◌++◌,
  any, find, length, ltb, ◌==◌, or_else, if◌then◌else◌, Text, text, text_eq, is_empty,
}
use basket_shared.World.Entities.{
  User, AuthUser, Role, admin, role_eq, user_exists, invalid_credentials, requires_role,
  invalid_token,
}
use basket_shared.World.State.{World}
use basket_shared.World.Monad.{
  Failure, conflict, unauthorized, forbidden, Outcome, ok, thrown, Async, pure, throw, call, ◌>>=◌,
  ◌>>◌,
}

-- `Buffer.from(s)`: UTF-8.
unfoldable pub utf8_char : ℕ → List ℕ
utf8_char c =
    if ltb c 0x80
    then c ∷ []
    else if ltb c 0x800
    then (0xc0 + c / 64) ∷ (0x80 + c % 64) ∷ []
    else if ltb c 0x10000
    then (0xe0 + c / 4096) ∷ (0x80 + c / 64 % 64) ∷ (0x80 + c % 64) ∷ []
    else (0xf0 + c / 262144) ∷ (0x80 + c / 4096 % 64) ∷ (0x80 + c / 64 % 64) ∷ (0x80 + c % 64) ∷ []

unfoldable pub utf8 : Text → List ℕ
unfolding utf8_char
utf8 [] = []
utf8 (c ∷ s) = utf8_char c ++ utf8 s

-- `timingSafeEqual`, as the comparison of two buffers of one length.
unfoldable pub bytes_eq : List ℕ → List ℕ → Bool
bytes_eq (a ∷ s) (b ∷ t) = a == b && bytes_eq s t
bytes_eq [] t = true
bytes_eq (a ∷ s) [] = true

unfoldable pub matches_secret : (secret provided : Text) → Bool
unfolding utf8 bytes_eq
matches_secret secret provided =
    let a = utf8 provided in
    let b = utf8 secret in if length a == length b then bytes_eq a b else false

-- `headerToken ?? queryToken`
abbrev pub provided_token : Option Text → Option Text → Option Text
provided_token none query = query
provided_token (some h) query = some h

unfoldable pub can_activate_webhook : (secret : Text) (header query : Option Text) → Outcome Bool
unfolding matches_secret
can_activate_webhook secret header query = elim (provided_token header query) [
  | none ↦ thrown (unauthorized invalid_token)
  | some t ↦
      if not (is_empty t) && matches_secret secret t
      then ok true
      else thrown (unauthorized invalid_token)
]

-- RolesGuard. `required` is the metadata of the handler, and `user` what JwtAuthGuard has set.
abbrev pub roles_of : Option AuthUser → List Role
roles_of none = []
roles_of (some u) = u.roles

abbrev pub includes_role : List Role → Role → Bool
includes_role roles r = any (role_eq r) roles

unfoldable pub can_activate_roles : (required : Option (List Role)) → Option AuthUser → Outcome Bool
can_activate_roles none user = ok true
can_activate_roles (some []) user = ok true
can_activate_roles (some (r ∷ required)) user =
    if any (includes_role (roles_of user)) (r ∷ required)
    then ok true
    else thrown (forbidden requires_role)

-- bcrypt and the configuration that AuthService reads.
pub record AuthConfig : Type 0 where
  pub hash : ℕ → Text → Text  -- by the number of the call, which stands for the salt
  pub compare : Text → Text → Bool
  pub admin_username : Text
  pub admin_password : Text
  pub default_tenant : Text

-- INSERT: the primary key and the unique index `uq_users_username`.
abbrev pub add_user : User → World → Outcome User × World
add_user u w =
    if any (λ v. v.id == u.id || text_eq v.username u.username) w.db.users
    then (thrown Failure.unique_violation, w)
    else (ok u, record w { db = record w.db { users = w.db.users ++ u ∷ [] } })

unfoldable pub find_user : Text → List User → Option User
find_user username users = find (λ u. text_eq u.username username) users

abbrev pub default_tenant_id : Text
default_tenant_id = text "default"

abbrev pub is_nil : List User → Bool
is_nil [] = true
is_nil (u ∷ users) = false

-- The bootstrap administrator, in the tenant that the column defaults to.
unfoldable pub seed_admin : AuthConfig → Async (Unit {0})
unfolding call ◌>>=◌ pure
seed_admin c = do
  none_yet ← call (λ n w. (ok (is_nil w.db.users), w))
  if none_yet
      then (call (λ n w.
            add_user
              (record {
                id = w.services.uuid n;
                username = c.admin_username;
                password_hash = c.hash n c.admin_password;
                tenant_id = default_tenant_id;
                roles = admin ∷ [];
              })
              w)
          >> pure tt)
      else pure tt

abbrev pub principal : User → AuthUser
principal u = record {
  user_id = u.id;
  username = u.username;
  roles = u.roles;
  tenant_id = u.tenant_id;
}

abbrev pub check_password : AuthConfig → Text → Option User → Option AuthUser
check_password c password none = none
check_password c password (some u) =
    if c.compare password u.password_hash then some (principal u) else none

unfoldable pub validate_user : AuthConfig → Text → Text → Async (Option AuthUser)
unfolding call find_user ◌>>=◌ pure
validate_user c username password = do
  found ← call (λ n w. (ok (find_user username w.db.users), w))
  pure (check_password c password found)

abbrev pub or_unauthorized : Option AuthUser → Async AuthUser
or_unauthorized none = throw (unauthorized invalid_credentials)
or_unauthorized (some u) = pure u

-- `login`, with the claims that the token is signed over: JwtStrategy turns them back into the
-- same principal.
unfoldable pub login : AuthConfig → Text → Text → Async AuthUser
unfolding validate_user ◌>>=◌ throw pure
login c username password = do u ← validate_user c username password; or_unauthorized u

pub record CreateUser : Type 0 where
  pub username : Text
  pub password : Text
  pub roles : List Role
  pub tenant_id : Option Text

unfoldable pub create_user : AuthConfig → CreateUser → Async User
unfolding call find_user ◌>>=◌ throw pure
create_user c input = do
  exists ← call (λ n w. (ok (any (λ u. text_eq u.username input.username) w.db.users), w))
  if exists
      then throw (conflict (user_exists input.username))
      else call (λ n w.
        add_user
          (record {
            id = w.services.uuid n;
            username = input.username;
            password_hash = c.hash n input.password;
            tenant_id = or_else input.tenant_id c.default_tenant;
            roles = input.roles;
          })
          w)
