-- ===== src/Auth/Users.antt =====
-- What `createUser` and the seeding of the administrator in auth.service.ts promise.
use basket_shared.Prelude.{
  ℕ, ◌≡◌, ◌≢◌, Bool, ◌||◌, List, [], ◌∷◌, ◌++◌, ◌==◌, or_else, text_eq, All, Some, Text,
}
use basket_shared.World.Entities.{User, admin, user_exists}
use basket_shared.World.State.{World}
use basket_shared.World.Monad.{Failure, conflict, Outcome, ok, thrown}
use basket_shared.Auth.{AuthConfig, default_tenant_id, CreateUser}

-- The promise of `createUser`: what the caller is told, and what the users are. A name in use is
-- refused as a conflict; the index refuses what is left, a drawn id that is in use.
pub data Registers (c : AuthConfig) (input : CreateUser) (users : List User)
    : Outcome User → List User → Type 0 where
  name_in_use :
      Some (λ u. u.username ≡ input.username) users
      → Registers c input users (thrown (conflict (user_exists input.username))) users
  id_in_use :
      (id : ℕ)
      → All (λ u. u.username ≢ input.username) users
      → Some (λ u. u.id ≡ id) users
      → Registers c input users (thrown Failure.unique_violation) users
  registered :
      (u : User) (n : ℕ)
      → All (λ v. (v.username ≢ u.username) × (v.id ≢ u.id)) users
      → u.username ≡ input.username
      → u.password_hash ≡ c.hash n input.password
      → u.tenant_id ≡ or_else input.tenant_id c.default_tenant
      → u.roles ≡ input.roles
      → Registers c input users (ok u) (users ++ u ∷ [])

-- The promise of the seeding: an administrator for an empty table, and no user for any other.
pub data Seeds (c : AuthConfig) : List User → List User → Type 0 where
  first :
      (u : User)
      → u.username ≡ c.admin_username
      → u.roles ≡ admin ∷ []
      → u.tenant_id ≡ default_tenant_id
      → Seeds c [] (u ∷ [])
  settled : (v : User) (users : List User) → Seeds c (v ∷ users) (v ∷ users)

module _ (id : ℕ) (name : Text) where
  abbrev named : User → Bool
  named u = text_eq u.username name

  abbrev clash : User → Bool
  clash u = u.id == id || text_eq u.username name
