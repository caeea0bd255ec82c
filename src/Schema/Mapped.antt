-- ===== src/Schema/Mapped.antt =====
-- The schema that the migrations leave, and what the entities ask of it.
use basket_shared.Prelude.{
  Bool, true, false, not_both, ◌&&◌, not, Bool-cases, inl, inr, List, [], ◌∷◌, ◌++◌, any, filter,
  All, In, Text, text_eq, ◌≡◌, refl, ap, sym, subst, arith,
}
use basket_shared.Schema.{
  EnumType, Schema, empty, Statement, Outcome, done, failed, run, perform, every,
}
use basket_shared.Schema.Migrations.{
  Migration, ups, migrations, init_file_transfers, create_users, create_outbox,
  create_event_subscriptions, create_tenant_usage,
}
use basket_shared.Schema.Entities.{
  Entity, entities, file_transfer_entity, user_entity, outbox_event_entity,
  event_subscription_entity, tenant_usage_entity, is_mapped, has_table_of, has_enums_of, same_enum,
  same_set, same_column, same_texts,
}
use basket_shared.Schema.Beside.{
  beside, IsFree, is_free, are_free, names, run-are_free, IsFree-is_free, any-beside, any-narrow,
  any-false,
}
use basket_shared.Schema.Reverting.{is_foreign, beside-empty}

module _ {A : Type 0} where
  every-In : (p : A → Bool) (xs : List A) (x : A) → every p xs ≡ true → In x xs → p x ≡ true
  every-In p [] x h i = absurd (i tt)
  every-In p (y ∷ ys) x h (inl e) = subst (λ z. p z ≡ true) (sym e) (ground arith)
  every-In p (y ∷ ys) x h (inr i) = every-In p ys x (ground arith) i

  every-append :
      (p : A → Bool) (xs ys : List A)
      → every p xs ≡ true
      → every p ys ≡ true
      → every p (xs ++ ys) ≡ true
  every-append p [] ys h k = k
  every-append p (x ∷ xs) ys h k = ground (arith, every-append p xs ys (ground arith) k)

  filter-none :
      (p q : A → Bool) (xs ys : List A)
      → any p ys ≡ false
      → filter (λ x. p x && q x) (xs ++ ys) ≡ filter (λ x. p x && q x) xs
  filter-none p q [] [] h = refl
  filter-none p q [] (y ∷ ys) h = let (e, k) = any-false p y ys h in rw e (filter-none p q [] ys k)
  filter-none p q (x ∷ xs) ys h = elim (Bool-cases (p x && q x)) [
    | inl e ↦ rw e (ap (λ zs. x ∷ zs) (filter-none p q xs ys h))
    | inr e ↦ rw e (filter-none p q xs ys h)
  ]

are_free-ups :
    (r : Schema) (ms : List Migration) → is_foreign r ms ≡ true → are_free r (ups ms) ≡ true
are_free-ups r [] h = refl
are_free-ups r (m ∷ ms) h =
    every-append (λ q. every (is_free r) (names q)) m.up (ups ms) (ground arith)
      (are_free-ups r ms (ground arith))

-- A name in a statement of a migration is free.
named-IsFree :
    (r : Schema) (m : Migration) (q : Statement) (n : Text)
    → is_foreign r migrations ≡ true
    → In m migrations
    → In q m.up
    → In n (names q)
    → IsFree r n
named-IsFree r m q n free i j k =
    let both = every-In (λ m. are_free r m.up && are_free r m.down) migrations m free i in
    let ups_free : are_free r m.up ≡ true = ground arith in
    IsFree-is_free r n (
      every-In (is_free r) (names q) n
        (every-In (λ q. every (is_free r) (names q)) m.up q ups_free j) k)

has_table_of-beside :
    (r s : Schema) (e : Entity) → IsFree r e.name → has_table_of (beside r s) e ≡ has_table_of s e
has_table_of-beside r s e f =
    rw
      (
        any-beside (λ t. text_eq t.name e.name && same_set same_column t.columns e.columns) s.tables
            r.tables
            (any-narrow (λ t. text_eq t.name e.name) (λ t. same_set same_column t.columns e.columns)
              r.tables f.0),
        filter-none (λ i. text_eq i.table e.name) (λ i. not i.primary) s.indexes r.indexes f.2,
        any-beside
            (λ i. text_eq i.table e.name && (i.primary && same_texts i.columns (e.primary ∷ [])))
            s.indexes r.indexes
            (any-narrow (λ i. text_eq i.table e.name)
              (λ i. i.primary && same_texts i.columns (e.primary ∷ [])) r.indexes f.2),
      )
      refl

and_first : (a b : Bool) → (a && b) ≡ true → a ≡ true
and_first a b h = ground (arith, h)

and_second : (a b : Bool) → (a && b) ≡ true → b ≡ true
and_second a b h = ground (arith, h)

any-more : {A : Type 0} (p : A → Bool) (xs ys : List A) → any p xs ≡ true → any p (xs ++ ys) ≡ true
any-more p [] ys h = absurd (not_both refl h)
any-more p (x ∷ xs) ys h = elim (Bool-cases (p x)) [
  | inl e ↦ ground (arith, e)
  | inr e ↦ ground (arith, e, any-more p xs ys (ground (arith, h, e)))
]

has_enums-beside :
    (r s : Schema) (es : List EnumType)
    → every (λ x. any (same_enum x) s.types) es ≡ true
    → every (λ x. any (same_enum x) (s.types ++ r.types)) es ≡ true
has_enums-beside r s [] h = refl
has_enums-beside r s (x ∷ es) h = ground (
  arith,
  any-more (same_enum x) s.types r.types (ground (arith, h)),
  has_enums-beside r s es (ground (arith, h)),
)

is_mapped-beside :
    (r s : Schema) (e : Entity)
    → IsFree r e.name
    → is_mapped s e ≡ true
    → is_mapped (beside r s) e ≡ true
is_mapped-beside r s e f h =
    let table : has_table_of s e ≡ true = and_first (has_table_of s e) (has_enums_of s e) h in
    let values =
      has_enums-beside r s e.enums (and_second (has_table_of s e) (has_enums_of s e) h) in
    rw (has_table_of-beside r s e f, table, values) refl

abbrev schema_of : Outcome → Schema
schema_of (done s) = s
schema_of (failed e) = empty

migrated : Schema
unfolding perform text_eq
migrated = schema_of (run (ups migrations) empty)

run-migrated : run (ups migrations) empty ≡ done migrated
unfolding perform text_eq migrated
run-migrated = refl

-- An entity whose table is a name of the migrations.
entity-is_mapped :
    (r : Schema) (e : Entity) (m : Migration) (q : Statement)
    → is_foreign r migrations ≡ true
    → In m migrations
    → In q m.up
    → In e.name (names q)
    → is_mapped migrated e ≡ true
    → is_mapped (beside r migrated) e ≡ true
entity-is_mapped r e m q free i j k h =
    is_mapped-beside r migrated e (named-IsFree r m q e.name free i j k) h

-- On a schema with the extension uuid-ossp in which no name of the migrations is in use, the
-- migrations succeed, and of every entity there is then a table with the entity's columns, indexes
-- and primary key and no others: names, types, lengths, nullability, defaults and uniqueness agree;
-- and the enum types of its columns have the entity's values in its order.
pub entities-IsMapped :
    (r : Schema)
    → r.uuid_ossp ≡ true
    → is_foreign r migrations ≡ true
    → (t : Schema) × (run (ups migrations) r ≡ done t) × All (λ e. is_mapped t e ≡ true) entities
unfolding text_eq migrated
entities-IsMapped r there free = (
  beside r migrated,
  subst (λ s. run (ups migrations) s ≡ done (beside r migrated)) (beside-empty r there)
      (run-are_free r (ups migrations) empty migrated (are_free-ups r migrations free)
        run-migrated),
  (
    entity-is_mapped r file_transfer_entity init_file_transfers _ free (inl refl) (inr (inl refl))
        (inl refl) refl,
    (
      entity-is_mapped r user_entity create_users _ free (inr (inr (inl refl))) (inl refl)
          (inl refl) refl,
      (
        entity-is_mapped r outbox_event_entity create_outbox _ free (inr (inr (inr (inl refl))))
            (inr (inl refl)) (inl refl) refl,
        (
          entity-is_mapped r event_subscription_entity create_event_subscriptions _ free
              (inr (inr (inr (inr (inr (inr (inl refl))))))) (inl refl) (inl refl) refl,
          (
            entity-is_mapped r tenant_usage_entity create_tenant_usage _ free
                (inr (inr (inr (inr (inr (inr (inr (inl refl)))))))) (inl refl) (inl refl) refl,
            tt,
          ),
        ),
      ),
    ),
  ),
)
