-- ===== src/Events/Laws.antt =====
-- Who is told of an event, and whose subscription can be removed: event-publisher.service.ts and
-- subscriptions.service.ts.
use basket_shared.Prelude.{
  ℕ, ◌≡◌, refl, sym, ◌∙◌, ◌≢◌, inl, inr, Bool, true, false, not, ◌&&◌, Option, none, some, List, [],
  ◌∷◌, any, filter, find, ◌==◌, ==_iff, Bool-cases, not_both, Text, text_eq, text_eq_iff, All,
  All-map, All-filter, All-zip, filter-true,
}
use basket_shared.World.Entities.{EventType, event_eq, EventSubscription, AuthUser}
use basket_shared.World.State.{World, ticked}
use basket_shared.World.Monad.{ok, call, throw}
use basket_shared.World.Triples.{Triple, Triple-call, Triple-bind}
use basket_shared.World.Endings.{any_result}
use basket_shared.Events.{
  is_active_for, wants, targets, is_own, delete_if_found, remove_subscription,
}

-- The subscription is to be told of the tenant's events of the type.
pub record IsTarget (tenant : Text) (type : EventType) (s : EventSubscription) : Type 0 where
  pub of_tenant : s.tenant_id ≡ tenant
  pub live : s.active ≡ true
  pub asked : any (event_eq type) s.events ≡ true

-- The rows of other tenants.
abbrev pub foreign : Text → List EventSubscription → List EventSubscription
foreign tenant rows = filter (λ s. not (text_eq s.tenant_id tenant)) rows

abbrev pub HasDistinctSubscriptions : List EventSubscription → Type 0
HasDistinctSubscriptions [] = Unit
HasDistinctSubscriptions (r ∷ rows) = All (λ s. s.id ≢ r.id) rows × HasDistinctSubscriptions rows

-- Every subscription that an event is delivered to is one of the event's tenant, is active, and
-- asks for the type of the event.
targets-IsTarget :
    (tenant : Text) (type : EventType) (rows : List EventSubscription)
    → All (IsTarget tenant type) (targets tenant type rows)
unfolding targets
targets-IsTarget tenant type rows =
    let active = filter (is_active_for tenant) rows in
    let P : EventSubscription → Type 0 = λ s. is_active_for tenant s ≡ true in
    All-zip P (λ s. wants type s ≡ true) (IsTarget tenant type) is_target
      (filter (wants type) active)
      (All-filter P (wants type) active (filter-true (is_active_for tenant) rows))
      (filter-true (wants type) active)
  where
    both : (a b : Bool) → a && b ≡ true → (a ≡ true) × (b ≡ true)
    both true true q = (refl, refl)
    both true false q = cc
    both false b q = cc

    is_target :
        (s : EventSubscription)
        → is_active_for tenant s ≡ true
        → wants type s ≡ true
        → IsTarget tenant type s
    is_target s a k =
        let (own, live) = both (text_eq s.tenant_id tenant) s.active a in
        record { of_tenant = (text_eq_iff s.tenant_id tenant).0 own; live = live; asked = k }

module _ (user : AuthUser) where
  abbrev KeepsForeign : List EventSubscription → World → Type 0
  KeepsForeign kept w = foreign user.tenant_id w.db.subscriptions ≡ kept

  -- Deleting by an id that no other tenant has leaves the rows of the other tenants alone.
  foreign-delete :
      (id : ℕ) (rows : List EventSubscription)
      → All (λ s. s.id ≡ id → text_eq s.tenant_id user.tenant_id ≡ true) rows
      → foreign user.tenant_id (filter (λ s. not (s.id == id)) rows) ≡ foreign user.tenant_id rows
  foreign-delete id [] h = refl
  foreign-delete id (s ∷ rows) (p, h) = elim (Bool-cases (s.id == id)) [
    | inl e ↦ rw (e, p ((==_iff s.id id).0 e)) (foreign-delete id rows h)
    | inr e ↦ elim (Bool-cases (text_eq s.tenant_id user.tenant_id)) [
      | inl t ↦ rw (e, t) (foreign-delete id rows h)
      | inr t ↦ rw (e, t) (rw (foreign-delete id rows h) refl)
    ]
  ]

  -- If the user's row `id` is found, no other tenant has a row of that id.
  abbrev OwnId : ℕ → Option EventSubscription → World → Type 0
  OwnId id none w = Unit
  OwnId id (some s) w =
      All (λ r. r.id ≡ id → text_eq r.tenant_id user.tenant_id ≡ true) w.db.subscriptions

  own_found :
      (id : ℕ) (rows : List EventSubscription)
      → HasDistinctSubscriptions rows
      → (s : EventSubscription) → find (is_own user id) rows ≡ some s
      → All (λ r. r.id ≡ id → text_eq r.tenant_id user.tenant_id ≡ true) rows
  own_found id [] d s f = cc
  own_found id (r ∷ rows) (far, d) s f = elim (Bool-cases (r.id == id)) [
    | inl e ↦ elim (Bool-cases (text_eq r.tenant_id user.tenant_id)) [
      | inl t ↦ (
        (λ _. t),
        All-map (λ x. x.id ≢ r.id) (λ x. x.id ≡ id → text_eq x.tenant_id user.tenant_id ≡ true)
            (λ x n q. absurd (n (q ∙ sym ((==_iff r.id id).0 e)))) rows far,
      )
      | inr t ↦ absurd (not_there id r.id rows far ((==_iff r.id id).0 e) s (rw (e, t) at f))
    ]
    | inr e ↦ ((λ q. absurd (not_both e ((==_iff r.id id).1 q))), own_found id rows d s (rw e at f))
  ]
    where
      not_there :
          (id k : ℕ) (rows : List EventSubscription)
          → All (λ x. x.id ≢ k) rows
          → k ≡ id
          → (s : EventSubscription) → find (is_own user id) rows ≡ some s
          → ⊥
      not_there id k [] far e s f = cc
      not_there id k (x ∷ rows) (n, far) e s f = elim (Bool-cases (x.id == id)) [
        | inl q ↦ n ((==_iff x.id id).0 q ∙ sym e)
        | inr q ↦ not_there id k rows far e s (rw q at f)
      ]

  remove-Triple :
      (id : ℕ) (kept : List EventSubscription)
      → Triple
          (λ w. HasDistinctSubscriptions w.db.subscriptions × KeepsForeign kept w)
          (remove_subscription user id)
          (λ _. KeepsForeign kept)
          (KeepsForeign kept)
  unfolding remove_subscription throw
  remove-Triple id kept =
      Triple-bind (call (λ n w. (ok (find (is_own user id) w.db.subscriptions), w)))
        (delete_if_found id)
        (Triple-call {Q = λ o w. OwnId id o w × KeepsForeign kept w} _ (λ w h. h.1) (λ _ w h. h.1)
          λ n w h. (known (ticked w) (find (is_own user id) w.db.subscriptions) refl h.0, h.1))
        delete
    where
      known :
          (w : World) (o : Option EventSubscription)
          → find (is_own user id) w.db.subscriptions ≡ o
          → HasDistinctSubscriptions w.db.subscriptions
          → OwnId id o w
      known w none f d = tt
      known w (some s) f d = own_found id w.db.subscriptions d s f

      delete :
          (o : Option EventSubscription)
          → Triple
              (λ w. OwnId id o w × KeepsForeign kept w)
              (delete_if_found id o)
              (λ _. KeepsForeign kept)
              (KeepsForeign kept)
      delete none = record { at = λ w h. h.1 }
      delete (some s) =
          Triple-call _ (λ w h. h.1) (λ _ w h. h)
            λ n w h. foreign-delete id w.db.subscriptions h.0 ∙ h.1

-- Removing a subscription leaves every subscription of every other tenant as it is, however it
-- ends, if the ids in the table are distinct.
remove_subscription-foreign :
    (user : AuthUser) (id : ℕ) (w : World)
    → HasDistinctSubscriptions w.db.subscriptions
    → foreign user.tenant_id (remove_subscription user id w).1.db.subscriptions
      ≡ foreign user.tenant_id w.db.subscriptions
remove_subscription-foreign user id w d =
    any_result (remove-Triple user id (foreign user.tenant_id w.db.subscriptions)) w (d, refl)
