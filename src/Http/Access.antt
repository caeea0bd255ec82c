-- ===== src/Http/Access.antt =====
-- What a request may change: the guards and roles of the controllers, with the operations behind
-- them.
pub mod Reading
pub use Reading.{scoped-Keeps, guarded-Keeps, passing_on, reading_call-Keeps}
use basket_shared.Http.Access.Reading.{only_reads}
use basket_shared.Prelude.{
  ◌≡◌, refl, Bool, true, false, ◌||◌, Option, none, some, List, [], ◌∷◌, any,
}
use basket_shared.World.Entities.{AuthUser, admin, operator, Role}
use basket_shared.World.State.{World}
use basket_shared.World.Monad.{ok, Async}
use basket_shared.World.Keeps.{Keeps, Stable, Restorable, Keeps-throw}
use basket_shared.Auth.{roles_of, includes_role, can_activate_roles}
use basket_shared.Transfers
use basket_shared.Http.{
  HttpConfig, Request, Call, on_upload, retry_many, retry_one, create_one, remove_one,
  create_account, Reply, guards, run_guard, run_guards, required_roles, handle_call, guarded,
  respond, writers, after_guard, authenticated, jwt_auth_guard, roles_guard,
}

-- The stores of `w` are those of `v`.
pub record SameStores (v w : World) : Type 0 where
  pub tables : w.db ≡ v.db
  pub jobs : w.transfer_jobs ≡ v.transfer_jobs
  pub deliveries : w.webhook_jobs ≡ v.webhook_jobs
  pub bodies : w.objects ≡ v.objects

SameStores-Stable : (v : World) → Stable (SameStores v)
SameStores-Stable v = record {
  at = λ w h. record {
    tables = h.tables;
    jobs = h.jobs;
    deliveries = h.deliveries;
    bodies = h.bodies;
  };
}

SameStores-Restorable : (v : World) → Restorable (SameStores v)
SameStores-Restorable v = record {
  at = λ u w g h. record {
    tables = g.tables;
    jobs = h.jobs;
    deliveries = h.deliveries;
    bodies = h.bodies;
  };
}

-- The caller, if there is one, has none of the roles.
abbrev pub Lacks : List Role → Request → Type 0
Lacks roles r = any (includes_role (roles_of r.principal)) roles ≡ false

module _ (P : World → Type 0) (c : HttpConfig) (m : Async Reply) where
  roles_refuse :
      (o : Option AuthUser) (role : Role) (roles : List Role)
      → any (includes_role (roles_of o)) (role ∷ roles) ≡ false
      → Keeps P (
          guarded
            (after_guard c
              (authenticated c o)
              (after_guard c (can_activate_roles (some (role ∷ roles)) o) (ok true)))
            m)
  unfolding can_activate_roles
  roles_refuse none role roles lacks = Keeps-throw _
  roles_refuse (some u) role roles lacks = rw lacks (Keeps-throw _)

  -- A handler that asks for roles that the caller has not is not run.
  pub refused-Keeps :
      (r : Request) (q : Call) (role : Role) (roles : List Role)
      → guards q ≡ jwt_auth_guard ∷ roles_guard ∷ []
      → required_roles q ≡ some (role ∷ roles)
      → Lacks (role ∷ roles) r
      → Keeps P (guarded (run_guards c r q (guards q)) m)
  unfolding run_guards run_guard
  refused-Keeps r q role roles g e lacks = rw (g, e) (roles_refuse r.principal role roles lacks)

abbrev pub is_webhook : Call → Bool
is_webhook (on_upload payload carrier) = true
is_webhook _ = false

Lacks-admin : (r : Request) → Lacks writers r → Lacks (admin ∷ []) r
Lacks-admin r h =
    both (includes_role (roles_of r.principal) operator)
      (includes_role (roles_of r.principal) admin) h
  where
    both : (a b : Bool) → (a || (b || false)) ≡ false → (b || false) ≡ false
    both false b h = h
    both true b h = cc

module _ (v : World) (c : HttpConfig) (r : Request) (lacks : Lacks writers r) where
  reading : (q : Call) → only_reads q ≡ true → Keeps (SameStores v) (respond c r q)
  unfolding respond
  reading q e =
      guarded-Keeps _ (SameStores-Stable v) (SameStores-Restorable v) _ _
        (reading_call-Keeps _ (SameStores-Stable v) (SameStores-Restorable v) c r q e)

  refusing :
      (q : Call) (role : Role) (roles : List Role)
      → guards q ≡ jwt_auth_guard ∷ roles_guard ∷ []
      → required_roles q ≡ some (role ∷ roles)
      → Lacks (role ∷ roles) r
      → Keeps (SameStores v) (respond c r q)
  unfolding respond
  refusing q role roles g e h = refused-Keeps _ c (handle_call c r q) r q role roles g e h

  respond-Keeps : (q : Call) → is_webhook q ≡ false → Keeps (SameStores v) (respond c r q)
  unfolding guards required_roles
  respond-Keeps (on_upload payload carrier) e = cc
  respond-Keeps (retry_many dto) e = refusing (retry_many dto) operator (admin ∷ []) refl refl lacks
  respond-Keeps (retry_one id) e = refusing (retry_one id) operator (admin ∷ []) refl refl lacks
  respond-Keeps (create_one dto random) e =
      refusing (create_one dto random) operator (admin ∷ []) refl refl lacks
  respond-Keeps (remove_one id) e = refusing (remove_one id) operator (admin ∷ []) refl refl lacks
  respond-Keeps (create_account dto) e =
      refusing (create_account dto) admin [] refl refl (Lacks-admin r lacks)
  respond-Keeps q e = reading q refl

-- A request other than the webhook, of a caller who is neither operator nor administrator, or of
-- nobody, changes no table, adds no job and no delivery to a queue, and stores no object, however
-- it ends.
pub respond-SameStores :
    (c : HttpConfig) (r : Request) (q : Call) (w : World)
    → Lacks writers r
    → is_webhook q ≡ false
    → SameStores w (respond c r q w).1
respond-SameStores c r q w lacks other =
    (respond-Keeps w c r lacks q other).at w
      (record { tables = refl; jobs = refl; deliveries = refl; bodies = refl })
