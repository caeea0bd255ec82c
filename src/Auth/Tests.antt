-- ===== src/Auth/Tests.antt =====
-- A secret, a role, and two users.
use basket_shared.Prelude.{◌≡◌, refl, true, none, [], ◌∷◌, text, text_eq}
use basket_shared.World.Entities.{operator, user_exists}
use basket_shared.World.State.{World}
use basket_shared.World.Monad.{thrown, conflict, call, pure, throw, ◌>>=◌}
use basket_shared.Auth.{AuthConfig, CreateUser, create_user, seed_admin}
use basket_shared.System.Steps.{fresh}
use basket_shared.Samples.{calm}

abbrev auth : AuthConfig
auth = record {
  hash = λ n p. p;
  compare = λ p h. true;
  admin_username = text "admin";
  admin_password = text "admin";
  default_tenant = text "default";
}

abbrev bob : CreateUser
bob = record {
  username = text "bob";
  password = text "secret";
  roles = operator ∷ [];
  tenant_id = none;
}

-- Bob's account is there.
abbrev with_bob : World
with_bob = (create_user auth bob (fresh calm)).1

bob_is_known :
    ((create_user auth bob with_bob).0 ≡ thrown (conflict (user_exists (text "bob"))))
    × ((seed_admin auth with_bob).1.db.users ≡ with_bob.db.users)
unfolding create_user seed_admin call ◌>>=◌ throw pure text_eq
bob_is_known = (refl, refl)
