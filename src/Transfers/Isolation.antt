-- ===== src/Transfers/Isolation.antt =====
-- Tenant isolation of transfers.service.ts: what a user who is no administrator can see.
-- The user's tenant is not empty: the policy takes an empty one for no scope.
use basket_shared.Prelude.{
  ◌≡◌, inl, inr, Bool, false, Option, none, some, List, [], ◌∷◌, find, Bool-cases, Text, is_empty,
  All,
}
use basket_shared.World.Entities.{FileTransfer, AuthUser}
use basket_shared.World.State.{World}
use basket_shared.Transfers.{is_admin}

abbrev pub IsOf : Text → FileTransfer → Type 0
IsOf tenant t = t.tenant_id ≡ tenant

-- The predicate of what was found, if anything was.
abbrev pub Each : {A : Type 0} → (A → Type 0) → Option A → Type 0
Each P none = Unit
Each P (some t) = P t

pub find-Each :
    (P : FileTransfer → Type 0) (p : FileTransfer → Bool) (rows : List FileTransfer)
    → All P rows
    → Each P (find p rows)
find-Each P p [] h = tt
find-Each P p (t ∷ rows) (q, h) = elim (Bool-cases (p t)) [
  | inl e ↦ rw e q
  | inr e ↦ rw e (find-Each P p rows h)
]

-- A user who is no administrator, of a tenant with a name.
pub record IsTenantUser (user : AuthUser) : Type 0 where
  pub plain : is_admin user ≡ false
  pub named : is_empty user.tenant_id ≡ false

module _ (user : AuthUser) (one : IsTenantUser user) where
  abbrev tenant : Text
  tenant = user.tenant_id
