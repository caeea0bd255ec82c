-- ===== src/Schema/Beside.antt =====
-- A schema beside another, and statements that touch only one of them.
pub mod Lists
pub use Lists.{any-beside, any-false, any-narrow}
use basket_shared.Schema.Beside.Lists.{filter-beside, map-beside}
use basket_shared.Prelude.{
  Bool, true, false, not, ◌&&◌, ◌||◌, List, [], ◌∷◌, ◌++◌, any, filter, All, Text, text_eq, arith,
  ◌≡◌, refl, ap, ◌∙◌,
}
use basket_shared.Schema.{
  Schema, Statement, Outcome, done, failed, create_type_if_absent, create_table, create_index,
  add_column_if_absent, drop_column_if_exists, drop_index_if_exists, drop_table_if_exists,
  drop_type_if_exists, set_row_security, set_forced, create_policy, drop_policy_if_exists, enums,
  uses_type, perform, run, after, has_table, has_type, has_columns, has_relation, is_read,
  has_policy, is_primary, every, member, update_table, without_column, without_table, Table,
}

abbrev pub beside : Schema → Schema → Schema
beside r s = record {
  uuid_ossp = s.uuid_ossp;
  types = s.types ++ r.types;
  tables = s.tables ++ r.tables;
  indexes = s.indexes ++ r.indexes;
  policies = s.policies ++ r.policies;
}

abbrev pub outcome_beside : Schema → Outcome → Outcome
outcome_beside r (done s) = done (beside r s)
outcome_beside r (failed e) = failed e

-- No object of the schema has the name, belongs to a table of that name, or uses a type of it.
abbrev pub IsFree : Schema → Text → Type 0
IsFree r n =
    (any (λ t. text_eq t.name n) r.tables ≡ false)
    × (any (λ i. text_eq i.name n) r.indexes ≡ false)
    × (any (λ i. text_eq i.table n) r.indexes ≡ false)
    × (any (λ e. text_eq e.name n) r.types ≡ false)
    × (uses_type n r ≡ false)
    × (any (λ p. text_eq p.table n) r.policies ≡ false)

-- The names of tables, indexes and types in a statement.
abbrev pub names : Statement → List Text
names (create_type_if_absent e) = e.name ∷ []
names (create_table n cs k ks) = n ∷ k ∷ enums cs
names (create_index absent i) = i.name ∷ i.table ∷ []
names (add_column_if_absent n c) = n ∷ enums (c ∷ [])
names (drop_column_if_exists n c) = n ∷ []
names (drop_index_if_exists n) = n ∷ []
names (drop_table_if_exists n) = n ∷ []
names (drop_type_if_exists n) = n ∷ []
names (set_row_security n on) = n ∷ []
names (set_forced n on) = n ∷ []
names (create_policy p) = p.table ∷ []
names (drop_policy_if_exists p n) = n ∷ []

-- What the tests of `perform` and its changes are on the larger schema.
module _ (r s : Schema) where
  has_table-beside : (n : Text) → IsFree r n → has_table n (beside r s) ≡ has_table n s
  has_table-beside n f = any-beside (λ t. text_eq t.name n) s.tables r.tables f.0

  has_relation-beside : (n : Text) → IsFree r n → has_relation n (beside r s) ≡ has_relation n s
  has_relation-beside n f =
      rw (has_table-beside n f)
        (ap (λ b. has_table n s || b) (any-beside (λ i. text_eq i.name n) s.indexes r.indexes f.1))

  has_type-beside : (n : Text) → IsFree r n → has_type n (beside r s) ≡ has_type n s
  has_type-beside n f = any-beside (λ e. text_eq e.name n) s.types r.types f.3

  every_type-beside :
      (ns : List Text)
      → All (IsFree r) ns
      → every (λ n. has_type n (beside r s)) ns ≡ every (λ n. has_type n s) ns
  every_type-beside [] fs = refl
  every_type-beside (n ∷ ns) (f, fs) =
      rw (has_type-beside n f) (ap (λ b. has_type n s && b) (every_type-beside ns fs))

  has_columns-beside :
      (n : Text) (cs : List Text) → IsFree r n → has_columns n cs (beside r s) ≡ has_columns n cs s
  has_columns-beside n cs f = any-beside _ s.tables r.tables (
      any-narrow (λ t. text_eq t.name n)
        (λ t. every (λ c. any (λ k. text_eq k.name c) t.columns) cs) r.tables f.0)

  uses_type-beside : (n : Text) → IsFree r n → uses_type n (beside r s) ≡ uses_type n s
  uses_type-beside n f = any-beside _ s.tables r.tables f.4

  is_read-beside : (n c : Text) → IsFree r n → is_read n c (beside r s) ≡ is_read n c s
  is_read-beside n c f =
      any-beside _ s.policies r.policies
        (any-narrow (λ p. text_eq p.table n) (λ p. member c p.columns) r.policies f.5)

  has_policy-beside : (n p : Text) → IsFree r n → has_policy n p (beside r s) ≡ has_policy n p s
  has_policy-beside n p f =
      any-beside _ s.policies r.policies
        (any-narrow (λ q. text_eq q.table n) (λ q. text_eq q.name p) r.policies f.5)

  is_primary-beside : (n : Text) → IsFree r n → is_primary n (beside r s) ≡ is_primary n s
  is_primary-beside n f =
      any-beside _ s.indexes r.indexes
        (any-narrow (λ i. text_eq i.name n) (λ i. i.primary) r.indexes f.1)

  update_table-beside :
      (n : Text) (g : Table → Table)
      → IsFree r n
      → update_table n g (beside r s) ≡ beside r (update_table n g s)
  update_table-beside n g f =
      ap (λ ts. record (beside r s) { tables = ts })
        (map-beside (λ t. text_eq t.name n) g s.tables r.tables f.0)

  without_column-beside :
      (n c : Text) → IsFree r n → without_column n c (beside r s) ≡ beside r (without_column n c s)
  without_column-beside n c f =
      rw
        (map-beside (λ t. text_eq t.name n)
          (λ t. record t { columns = filter (λ k. not (text_eq k.name c)) t.columns }) s.tables
          r.tables f.0)
        (rw
          (filter-beside (λ i. text_eq i.table n && member c i.columns) s.indexes r.indexes
            (any-narrow (λ i. text_eq i.table n) (λ i. member c i.columns) r.indexes f.2))
          refl)

  without_table-beside :
      (n : Text) → IsFree r n → without_table n (beside r s) ≡ beside r (without_table n s)
  without_table-beside n f = rw (filter-beside (λ t. text_eq t.name n) s.tables r.tables f.0) (
      rw (filter-beside (λ i. text_eq i.table n) s.indexes r.indexes f.2)
        (rw (filter-beside (λ p. text_eq p.table n) s.policies r.policies f.5) refl))

  -- A statement whose names are free in one schema runs on the other one only.
  perform-beside :
      (q : Statement)
      → All (IsFree r) (names q)
      → perform q (beside r s) ≡ outcome_beside r (perform q s)
  unfolding perform
  perform-beside (create_type_if_absent e) (f, _) = ground (arith, has_type-beside e.name f)
  perform-beside (create_table n cs k ks) (f, (g, fs)) =
      ground
        (arith, has_relation-beside n f, has_relation-beside k g, every_type-beside (enums cs) fs)
  perform-beside (create_index absent i) (f, (g, _)) = ground (
    arith,
    has_relation-beside i.name f,
    has_table-beside i.table g,
    has_columns-beside i.table i.columns g,
  )
  perform-beside (add_column_if_absent n c) (f, fs) = ground (
    arith,
    has_table-beside n f,
    has_columns-beside n (c.name ∷ []) f,
    every_type-beside (enums (c ∷ [])) fs,
    update_table-beside n (λ t. record t { columns = t.columns ++ c ∷ [] }) f,
  )
  perform-beside (drop_column_if_exists n c) (f, _) =
      ground (arith, has_table-beside n f, is_read-beside n c f, without_column-beside n c f)
  perform-beside (drop_index_if_exists n) (f, _) =
      ground (
        arith,
        is_primary-beside n f,
        filter-beside (λ i. text_eq i.name n) s.indexes r.indexes f.1,
      )
  perform-beside (drop_table_if_exists n) (f, _) = ap done (without_table-beside n f)
  perform-beside (drop_type_if_exists n) (f, _) =
      ground
        (arith, uses_type-beside n f, filter-beside (λ e. text_eq e.name n) s.types r.types f.3)
  perform-beside (set_row_security n on) (f, _) =
      ground
        (arith, has_table-beside n f, update_table-beside n (λ t. record t { row_security = on }) f)
  perform-beside (set_forced n on) (f, _) =
      ground (arith, has_table-beside n f, update_table-beside n (λ t. record t { forced = on }) f)
  perform-beside (create_policy p) (f, _) = ground (
    arith,
    has_table-beside p.table f,
    has_policy-beside p.table p.name f,
    has_columns-beside p.table p.columns f,
  )
  perform-beside (drop_policy_if_exists p n) (f, _) =
      ap (λ ps. done (record (beside r s) { policies = ps }))
        (filter-beside (λ q. text_eq q.table n && text_eq q.name p) s.policies r.policies
          (any-narrow (λ q. text_eq q.table n) (λ q. text_eq q.name p) r.policies f.5))

after-beside :
    (r : Schema) (qs : List Statement)
    → ((t : Schema) → run qs (beside r t) ≡ outcome_beside r (run qs t))
    → (o : Outcome)
    → after (outcome_beside r o) (λ t. run qs t) ≡ outcome_beside r (after o (λ t. run qs t))
after-beside r qs rest (done t) = rest t
after-beside r qs rest (failed e) = refl

run-beside :
    (r : Schema) (qs : List Statement) (s : Schema)
    → All (λ q. All (IsFree r) (names q)) qs
    → run qs (beside r s) ≡ outcome_beside r (run qs s)
run-beside r [] s fs = refl
run-beside r (q ∷ qs) s (f, fs) =
    rw (perform-beside r s q f) (after-beside r qs (λ t. run-beside r qs t fs) (perform q s))

-- `IsFree` as a test, for each name in some statements.
abbrev pub is_free : Schema → Text → Bool
is_free r n = not (
    any (λ t. text_eq t.name n) r.tables
    || any (λ i. text_eq i.name n) r.indexes
    || any (λ i. text_eq i.table n) r.indexes
    || any (λ e. text_eq e.name n) r.types
    || uses_type n r
    || any (λ p. text_eq p.table n) r.policies)

abbrev pub are_free : Schema → List Statement → Bool
are_free r qs = every (λ q. every (is_free r) (names q)) qs

pub IsFree-is_free : (r : Schema) (n : Text) → is_free r n ≡ true → IsFree r n
IsFree-is_free r n h = ground arith

module _ {A : Type 0} where
  every-All :
      (p : A → Bool) (P : A → Type 0)
      → ((x : A) → p x ≡ true → P x)
      → (xs : List A) → every p xs ≡ true
      → All P xs
  every-All p P f [] h = tt
  every-All p P f (x ∷ xs) h = (f x (ground arith), every-All p P f xs (ground arith))

pub run-are_free :
    (r : Schema) (qs : List Statement) (s t : Schema)
    → are_free r qs ≡ true
    → run qs s ≡ done t
    → run qs (beside r s) ≡ done (beside r t)
run-are_free r qs s t free ran =
    run-beside r qs s
      (every-All _ _ (λ q. every-All (is_free r) (IsFree r) (IsFree-is_free r) (names q)) qs free)
    ∙ ap (outcome_beside r) ran
