-- ===== src/System/Downloads/Places.antt =====
-- What `getObject` of storage.service.ts finds at a place.
use basket_shared.Prelude.{
  text_eq_iff, ◌≡◌, refl, subst, inl, inr, true, Option, none, some, List, [], ◌∷◌, Bool-cases,
  Text, In, arith, if◌then◌else◌,
}
use basket_shared.World.State.{StoredObject}
use basket_shared.Storage.{is_at, object_at}
use basket_shared.Transfers.Isolation.{Each}
use basket_shared.System.Worker.{HasObject}

abbrev pub IsAt : Text → Text → StoredObject → Type 0
IsAt bucket key o = (o.bucket ≡ bucket) × (o.key ≡ key)

pub is_at-IsAt :
    (bucket key : Text) (o : StoredObject) → is_at bucket key o ≡ true → IsAt bucket key o
is_at-IsAt bucket key o h = (
  (text_eq_iff o.bucket bucket).0 (ground (arith, h)),
  (text_eq_iff o.key key).0 (ground (arith, h)),
)

later-Each :
    (bucket key : Text) (x : StoredObject) (objects : List StoredObject) (r : Option StoredObject)
    → Each (λ o. In o objects × IsAt bucket key o) r
    → Each
        (λ o. In o (x ∷ objects) × IsAt bucket key o)
        (elim r as (λ _. Option StoredObject) [
          | some later ↦ some later
          | none ↦ if is_at bucket key x then some x else none
        ])
later-Each bucket key x objects (some o) (i, place) = (inr i, place)
later-Each bucket key x objects none h = elim (Bool-cases (is_at bucket key x)) [
  | inl e ↦ rw e (inl refl, is_at-IsAt bucket key x e)
  | inr e ↦ rw e tt
]

-- What is found at a place is one of the objects, and is there.
pub object_at-Each :
    (bucket key : Text) (objects : List StoredObject)
    → Each (λ o. In o objects × IsAt bucket key o) (object_at bucket key objects)
unfolding object_at
object_at-Each bucket key [] = tt
object_at-Each bucket key (x ∷ objects) =
    later-Each bucket key x objects _ (object_at-Each bucket key objects)

-- Where an object is at a place, one is found there.
abbrev pub Finds : Text → Text → List StoredObject → Type 0
Finds bucket key objects = (o : StoredObject) × (object_at bucket key objects ≡ some o)

pub HasObject-Finds :
    (bucket key : Text) (objects : List StoredObject)
    → HasObject bucket key objects
    → Finds bucket key objects
unfolding object_at
HasObject-Finds bucket key [] h = absurd (h tt)
HasObject-Finds bucket key (x ∷ objects) (inr i) =
    let (o, q) = HasObject-Finds bucket key objects i in (o, rw q refl)
HasObject-Finds bucket key (x ∷ objects) (inl (b, k)) = later (object_at bucket key objects) refl
  where
    later :
        (r : Option StoredObject)
        → object_at bucket key objects ≡ r
        → Finds bucket key (x ∷ objects)
    later (some o) e = (o, rw e refl)
    later none e = (x, rw (e, (text_eq_iff x.bucket bucket).1 b, (text_eq_iff x.key key).1 k) refl)

pub found_place :
    (bucket key : Text) (objects : List StoredObject) (o : StoredObject)
    → object_at bucket key objects ≡ some o
    → In o objects × IsAt bucket key o
found_place bucket key objects o e =
    subst (λ x. Each (λ y. In y objects × IsAt bucket key y) x) e
      (object_at-Each bucket key objects)
