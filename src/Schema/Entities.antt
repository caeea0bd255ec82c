-- ===== src/Schema/Entities.antt =====
-- What the entities' decorators ask of the database: outbox/outbox-event.entity.ts,
-- ingestion/entities/file-transfer.entity.ts, auth/entities/user.entity.ts,
-- events/entities/event-subscription.entity.ts and quota/tenant-usage.entity.ts. TypeORM writes
-- `int` as integer and `simple-array` as text, and names an enum `<table>_<column>_enum`.
use basket_shared.Prelude.{
  Bool, true, false, ◌==◌, ◌&&◌, List, [], ◌∷◌, any, filter, not, Text, text, text_eq,
}
use basket_shared.Schema.{
  EnumType, ColumnType, uuid, varchar, text_type, bigint, integer, boolean, timestamptz, jsonb,
  enum, Default, no_default, uuid_generate_v4, now, literal, Column, Index, Schema, every,
}
use basket_shared.Schema.Migrations.{required, defaulted, optional, generated_id, stamped}

-- A class with `@Entity`: its columns, those of `@Index` with the index's name and whether it is
-- unique, the enums of its columns, with their values in order, and the primary column.
pub record Entity : Type 0 where
  pub name : Text
  pub columns : List Column
  pub indexes : List Index
  pub enums : List EnumType
  pub primary : Text

-- `@Index(name, { unique })` on a column
abbrev index_of : Text → Text → Bool → Text → Index
index_of table n unique c = record {
  name = n;
  table = table;
  columns = c ∷ [];
  unique = unique;
  primary = false;
}

abbrev pub file_transfer_entity : Entity
file_transfer_entity = record {
  name = text "file_transfers";
  columns =
      generated_id
      ∷ required (text "idempotency_key") (varchar 128)
      ∷ required (text "filename") (varchar 1024)
      ∷ required (text "virtual_path") (varchar 2048)
      ∷ required (text "source_path") (varchar 2048)
      ∷ optional (text "object_key") (varchar 2048)
      ∷ required (text "bucket") (varchar 255)
      ∷ required (text "size_bytes") bigint
      ∷ optional (text "etag") (varchar 255)
      ∷ optional (text "checksum_sha256") (varchar 64)
      ∷ defaulted (text "encrypted") boolean (literal (text "false"))
      ∷ optional (text "wrapped_dek") text_type
      ∷ defaulted (text "status") (enum (text "file_transfers_status_enum"))
          (literal (text "PENDING"))
      ∷ defaulted (text "attempts") integer (literal (text "0"))
      ∷ optional (text "error_log") text_type
      ∷ defaulted (text "tenant_id") (varchar 100) (literal (text "default"))
      ∷ required (text "username") (varchar 255)
      ∷ optional (text "protocol") (varchar 32)
      ∷ optional (text "session_id") (varchar 255)
      ∷ stamped (text "created_at")
      ∷ stamped (text "updated_at")
      ∷ [];
  indexes =
      index_of (text "file_transfers") (text "uq_file_transfers_idempotency_key") true
        (text "idempotency_key")
      ∷ index_of (text "file_transfers") (text "idx_file_transfers_status") false (text "status")
      ∷ index_of (text "file_transfers") (text "idx_file_transfers_tenant") false (text "tenant_id")
      ∷ [];
  enums =
      record {
        name = text "file_transfers_status_enum";
        values = text "PENDING" ∷ text "PROCESSING" ∷ text "SUCCESS" ∷ text "FAILED" ∷ [];
      }
      ∷ [];
  primary = text "id";
}

abbrev pub user_entity : Entity
user_entity = record {
  name = text "users";
  columns =
      generated_id
      ∷ required (text "username") (varchar 255)
      ∷ required (text "password_hash") (varchar 255)
      ∷ defaulted (text "tenant_id") (varchar 100) (literal (text "default"))
      ∷ required (text "roles") text_type
      ∷ stamped (text "created_at")
      ∷ stamped (text "updated_at")
      ∷ [];
  indexes = index_of (text "users") (text "uq_users_username") true (text "username") ∷ [];
  enums = [];
  primary = text "id";
}

abbrev pub outbox_event_entity : Entity
outbox_event_entity = record {
  name = text "outbox_events";
  columns =
      generated_id
      ∷ required (text "aggregate_id") uuid
      ∷ required (text "type") (varchar 100)
      ∷ required (text "payload") jsonb
      ∷ defaulted (text "status") (enum (text "outbox_events_status_enum"))
          (literal (text "PENDING"))
      ∷ defaulted (text "attempts") integer (literal (text "0"))
      ∷ stamped (text "created_at")
      ∷ optional (text "published_at") timestamptz
      ∷ [];
  indexes = index_of (text "outbox_events") (text "idx_outbox_status") false (text "status") ∷ [];
  enums =
      record {
        name = text "outbox_events_status_enum";
        values = text "PENDING" ∷ text "PUBLISHED" ∷ [];
      }
      ∷ [];
  primary = text "id";
}

abbrev pub event_subscription_entity : Entity
event_subscription_entity = record {
  name = text "event_subscriptions";
  columns =
      generated_id
      ∷ required (text "tenant_id") (varchar 100)
      ∷ required (text "url") (varchar 2048)
      ∷ required (text "events") text_type
      ∷ required (text "secret") (varchar 255)
      ∷ defaulted (text "active") boolean (literal (text "true"))
      ∷ stamped (text "created_at")
      ∷ [];
  indexes =
      index_of (text "event_subscriptions") (text "idx_event_subs_tenant") false (text "tenant_id")
      ∷ [];
  enums = [];
  primary = text "id";
}

abbrev pub tenant_usage_entity : Entity
tenant_usage_entity = record {
  name = text "tenant_usage";
  columns =
      required (text "tenant_id") (varchar 100)
      ∷ defaulted (text "object_count") bigint (literal (text "0"))
      ∷ defaulted (text "bytes_stored") bigint (literal (text "0"))
      ∷ stamped (text "updated_at")
      ∷ [];
  indexes = [];
  enums = [];
  primary = text "tenant_id";
}

abbrev pub entities : List Entity
entities =
    file_transfer_entity ∷ user_entity ∷ outbox_event_entity ∷ event_subscription_entity
    ∷ tenant_usage_entity ∷ []

abbrev same_type : ColumnType → ColumnType → Bool
same_type uuid uuid = true
same_type (varchar n) (varchar m) = n == m
same_type text_type text_type = true
same_type bigint bigint = true
same_type integer integer = true
same_type boolean boolean = true
same_type timestamptz timestamptz = true
same_type jsonb jsonb = true
same_type (enum a) (enum b) = text_eq a b
same_type _ _ = false

abbrev same_default : Default → Default → Bool
same_default no_default no_default = true
same_default uuid_generate_v4 uuid_generate_v4 = true
same_default now now = true
same_default (literal a) (literal b) = text_eq a b
same_default _ _ = false

abbrev same_bool : Bool → Bool → Bool
same_bool true b = b
same_bool false b = not b

abbrev pub same_column : Column → Column → Bool
same_column a b =
    text_eq a.name b.name
    && same_type a.type b.type
    && same_bool a.not_null b.not_null
    && same_default a.default b.default

abbrev pub same_texts : List Text → List Text → Bool
same_texts [] [] = true
same_texts (a ∷ s) (b ∷ t) = text_eq a b && same_texts s t
same_texts _ _ = false

abbrev pub same_index : Index → Index → Bool
same_index a b =
    text_eq a.name b.name
    && text_eq a.table b.table
    && same_texts a.columns b.columns
    && same_bool a.unique b.unique
    && same_bool a.primary b.primary

-- Two lists with the same elements.
abbrev pub same_set {ℓ} : {A : Type ℓ} → (A → A → Bool) → List A → List A → Bool
same_set same s t = every (λ a. any (same a) t) s && every (λ b. any (same b) s) t

abbrev pub same_enum : EnumType → EnumType → Bool
same_enum a b = text_eq a.name b.name && same_texts a.values b.values

-- The table of the entity has the entity's columns, its indexes, its primary key, and no others.
abbrev pub has_table_of : Schema → Entity → Bool
has_table_of s e =
    any (λ t. text_eq t.name e.name && same_set same_column t.columns e.columns) s.tables
    && same_set same_index (filter (λ i. text_eq i.table e.name && not i.primary) s.indexes)
        e.indexes
    && any (λ i. text_eq i.table e.name && (i.primary && same_texts i.columns (e.primary ∷ [])))
        s.indexes

-- The enum types of the entity are there, with its values in its order.
abbrev pub has_enums_of : Schema → Entity → Bool
has_enums_of s e = every (λ x. any (same_enum x) s.types) e.enums

abbrev pub is_mapped : Schema → Entity → Bool
is_mapped s e = has_table_of s e && has_enums_of s e
