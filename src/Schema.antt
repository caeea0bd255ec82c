-- ===== src/Schema.antt =====
-- The schema of the database and the statements of database/migrations, with what PostgreSQL does
-- on each: tables with their columns and row security, enum types, indexes and policies. A table's
-- primary key is an index of its own. Of extensions there is uuid-ossp, which `uuid_generate_v4` is
-- of: no migration creates it (it takes a superuser), and a column that defaults to the function
-- fails without it. A statement that fails gives its error. Types have names apart
-- from those of tables and indexes. The rows of the tables are not looked at.
use basket_shared.Prelude.{
  ℕ, Bool, true, false, not, ◌&&◌, ◌||◌, List, [], ◌∷◌, ◌++◌, map, any, filter, Text, text_eq,
  if◌then◌else◌,
}
pub mod Migrations
pub mod Entities
pub mod Beside
pub mod Reverting
pub mod Mapped
pub mod Tests

pub data ColumnType : Type 0 where
  uuid : ColumnType
  varchar : ℕ → ColumnType
  text_type : ColumnType
  bigint : ColumnType
  integer : ColumnType
  boolean : ColumnType
  timestamptz : ColumnType
  jsonb : ColumnType
  enum : Text → ColumnType

pub data Default : Type 0 where
  no_default : Default
  uuid_generate_v4 : Default
  now : Default
  literal : Text → Default

pub record Column : Type 0 where
  pub name : Text
  pub type : ColumnType
  pub not_null : Bool
  pub default : Default

pub record Table : Type 0 where
  pub name : Text
  pub columns : List Column
  pub row_security : Bool
  pub forced : Bool

pub record EnumType : Type 0 where
  pub name : Text
  pub values : List Text

pub record Index : Type 0 where
  pub name : Text
  pub table : Text
  pub columns : List Text
  pub unique : Bool
  pub primary : Bool

-- A policy is known by the columns that its expressions read.
pub record Policy : Type 0 where
  pub name : Text
  pub table : Text
  pub columns : List Text

pub record Schema : Type 0 where
  pub uuid_ossp : Bool
  pub types : List EnumType
  pub tables : List Table
  pub indexes : List Index
  pub policies : List Policy

-- No table, type, index or policy, and the extension.
abbrev pub empty : Schema
empty = record { uuid_ossp = true; types = []; tables = []; indexes = []; policies = [] }

pub data Statement : Type 0 where
  create_type_if_absent : EnumType → Statement
  create_table : Text → List Column → Text → List Text → Statement
  create_index : Bool → Index → Statement
  add_column_if_absent : Text → Column → Statement
  drop_column_if_exists : Text → Text → Statement
  drop_index_if_exists : Text → Statement
  drop_table_if_exists : Text → Statement
  drop_type_if_exists : Text → Statement
  set_row_security : Text → Bool → Statement
  set_forced : Text → Bool → Statement
  create_policy : Policy → Statement
  drop_policy_if_exists : Text → Text → Statement

pub data SqlError : Type 0 where
  duplicate_relation duplicate_policy undefined_table undefined_column undefined_type : SqlError
  undefined_function : SqlError
  dependent_objects : SqlError

pub data Outcome : Type 0 where
  done : Schema → Outcome
  failed : SqlError → Outcome

abbrev pub member : Text → List Text → Bool
member n = any (λ x. text_eq x n)

abbrev pub every {ℓ} : {A : Type ℓ} → (A → Bool) → List A → Bool
every p [] = true
every p (x ∷ xs) = p x && every p xs

abbrev pub is_enum : Text → ColumnType → Bool
is_enum n (enum m) = text_eq m n
is_enum n _ = false

abbrev enum_of : ColumnType → List Text
enum_of (enum n) = n ∷ []
enum_of _ = []

-- The enum types that columns are of.
abbrev pub enums : List Column → List Text
enums [] = []
enums (c ∷ cs) = enum_of c.type ++ enums cs

abbrev pub is_generated : Default → Bool
is_generated uuid_generate_v4 = true
is_generated _ = false

-- Whether the functions that the columns default to are there.
abbrev pub has_functions : List Column → Schema → Bool
has_functions cs s = s.uuid_ossp || not (any (λ c. is_generated c.default) cs)

abbrev pub has_table : Text → Schema → Bool
has_table n s = any (λ t. text_eq t.name n) s.tables

-- Tables and indexes share their names.
abbrev pub has_relation : Text → Schema → Bool
has_relation n s = has_table n s || any (λ i. text_eq i.name n) s.indexes

abbrev pub has_type : Text → Schema → Bool
has_type n s = any (λ e. text_eq e.name n) s.types

abbrev pub has_columns : Text → List Text → Schema → Bool
has_columns n cs s =
    any (λ t. text_eq t.name n && every (λ c. any (λ k. text_eq k.name c) t.columns) cs) s.tables

abbrev pub uses_type : Text → Schema → Bool
uses_type n s = any (λ t. any (λ c. is_enum n c.type) t.columns) s.tables

-- Whether a policy of the table reads the column.
abbrev pub is_read : Text → Text → Schema → Bool
is_read n c s = any (λ p. text_eq p.table n && member c p.columns) s.policies

abbrev pub has_policy : Text → Text → Schema → Bool
has_policy n p s = any (λ q. text_eq q.table n && text_eq q.name p) s.policies

abbrev pub is_primary : Text → Schema → Bool
is_primary n s = any (λ i. text_eq i.name n && i.primary) s.indexes

abbrev pub update_table : Text → (Table → Table) → Schema → Schema
update_table n f s = record s { tables = map (λ t. if text_eq t.name n then f t else t) s.tables }

abbrev pub add_index : Index → Schema → Schema
add_index i s = record s { indexes = i ∷ s.indexes }

abbrev pub without_column : Text → Text → Schema → Schema
without_column n c s =
    record (update_table n
      (λ t. record t { columns = filter (λ k. not (text_eq k.name c)) t.columns }) s) {
        indexes = filter (λ i. not (text_eq i.table n && member c i.columns)) s.indexes;
      }

-- A table goes with its indexes and policies.
abbrev pub without_table : Text → Schema → Schema
without_table n s = record s {
  tables = filter (λ t. not (text_eq t.name n)) s.tables;
  indexes = filter (λ i. not (text_eq i.table n)) s.indexes;
  policies = filter (λ p. not (text_eq p.table n)) s.policies;
}

unfoldable pub perform : Statement → Schema → Outcome
perform (create_type_if_absent e) s =
    if has_type e.name s then done s else done (record s { types = e ∷ s.types })
perform (create_table n cs k ks) s =
    if has_relation n s || has_relation k s
    then failed duplicate_relation
    else if not (every (λ e. has_type e s) (enums cs))
    then failed undefined_type
    else if has_functions cs s
    then done (
        add_index (record { name = k; table = n; columns = ks; unique = true; primary = true })
          (record s {
            tables =
                record { name = n; columns = cs; row_security = false; forced = false } ∷ s.tables;
          }))
    else failed undefined_function
perform (create_index absent i) s =
    if has_relation i.name s
    then (if absent then done s else failed duplicate_relation)
    else if has_table i.table s
    then (if has_columns i.table i.columns s then done (add_index i s) else failed undefined_column)
    else failed undefined_table
perform (add_column_if_absent n c) s =
    if has_table n s
    then (if has_columns n (c.name ∷ []) s
        then done s
        else if not (every (λ e. has_type e s) (enums (c ∷ [])))
        then failed undefined_type
        else if has_functions (c ∷ []) s
        then done (update_table n (λ t. record t { columns = t.columns ++ c ∷ [] }) s)
        else failed undefined_function)
    else failed undefined_table
perform (drop_column_if_exists n c) s =
    if has_table n s
    then (if is_read n c s then failed dependent_objects else done (without_column n c s))
    else failed undefined_table
perform (drop_index_if_exists n) s =
    if is_primary n s
    then failed dependent_objects
    else done (record s { indexes = filter (λ i. not (text_eq i.name n)) s.indexes })
perform (drop_table_if_exists n) s = done (without_table n s)
perform (drop_type_if_exists n) s =
    if uses_type n s
    then failed dependent_objects
    else done (record s { types = filter (λ e. not (text_eq e.name n)) s.types })
perform (set_row_security n on) s =
    if has_table n s
    then done (update_table n (λ t. record t { row_security = on }) s)
    else failed undefined_table
perform (set_forced n on) s =
    if has_table n s
    then done (update_table n (λ t. record t { forced = on }) s)
    else failed undefined_table
perform (create_policy p) s =
    if has_table p.table s
    then (if has_policy p.table p.name s
        then failed duplicate_policy
        else if has_columns p.table p.columns s
        then done (record s { policies = p ∷ s.policies })
        else failed undefined_column)
    else failed undefined_table
perform (drop_policy_if_exists p n) s =
    done
      (record s { policies = filter (λ q. not (text_eq q.table n && text_eq q.name p)) s.policies })

abbrev pub after : Outcome → (Schema → Outcome) → Outcome
after (done s) f = f s
after (failed e) f = failed e

-- Statements one after another, up to the first that fails.
abbrev pub run : List Statement → Schema → Outcome
run [] s = done s
run (q ∷ qs) s = after (perform q s) (λ t. run qs t)
