-- ===== src/Schema/Migrations.antt =====
-- The migrations of database/migrations, oldest first.
use basket_shared.Prelude.{Bool, true, false, List, [], ◌∷◌, ◌++◌, Text, text}
use basket_shared.Schema.{
  ColumnType, uuid, varchar, text_type, bigint, integer, boolean, timestamptz, jsonb, enum, Default,
  no_default, uuid_generate_v4, now, literal, Column, Index, Statement, create_type_if_absent,
  create_table, create_index, add_column_if_absent, drop_column_if_exists, drop_index_if_exists,
  drop_table_if_exists, drop_type_if_exists, set_row_security, set_forced, create_policy,
  drop_policy_if_exists,
}

-- `class ... implements MigrationInterface`
pub record Migration : Type 0 where
  pub up : List Statement
  pub down : List Statement

-- `"<name>" <type> NOT NULL`, `... NOT NULL DEFAULT <default>` and `"<name>" <type>`.
abbrev pub required : Text → ColumnType → Column
required n t = record { name = n; type = t; not_null = true; default = no_default }

abbrev pub defaulted : Text → ColumnType → Default → Column
defaulted n t d = record { name = n; type = t; not_null = true; default = d }

abbrev pub optional : Text → ColumnType → Column
optional n t = record { name = n; type = t; not_null = false; default = no_default }

abbrev index_on : Bool → Text → Text → Text → Index
index_on unique n table c = record {
  name = n;
  table = table;
  columns = c ∷ [];
  unique = unique;
  primary = false;
}

abbrev pub generated_id : Column
generated_id = defaulted (text "id") uuid uuid_generate_v4

abbrev pub stamped : Text → Column
stamped n = defaulted n timestamptz now

abbrev file_transfers_table : Text
file_transfers_table = text "file_transfers"

abbrev users_table : Text
users_table = text "users"

abbrev pub init_file_transfers : Migration
init_file_transfers = record {
  up =
      create_type_if_absent (record {
        name = text "file_transfers_status_enum";
        values = text "PENDING" ∷ text "PROCESSING" ∷ text "SUCCESS" ∷ text "FAILED" ∷ [];
      })
      ∷ create_table file_transfers_table
          (generated_id
            ∷ required (text "idempotency_key") (varchar 128)
            ∷ required (text "filename") (varchar 1024)
            ∷ required (text "virtual_path") (varchar 2048)
            ∷ required (text "source_path") (varchar 2048)
            ∷ optional (text "object_key") (varchar 2048)
            ∷ required (text "bucket") (varchar 255)
            ∷ required (text "size_bytes") bigint
            ∷ optional (text "etag") (varchar 255)
            ∷ defaulted (text "status") (enum (text "file_transfers_status_enum"))
                (literal (text "PENDING"))
            ∷ defaulted (text "attempts") integer (literal (text "0"))
            ∷ optional (text "error_log") text_type
            ∷ required (text "username") (varchar 255)
            ∷ optional (text "protocol") (varchar 32)
            ∷ optional (text "session_id") (varchar 255)
            ∷ stamped (text "created_at")
            ∷ stamped (text "updated_at")
            ∷ [])
          (text "pk_file_transfers") (text "id" ∷ [])
      ∷ create_index false (
          index_on true (text "uq_file_transfers_idempotency_key") file_transfers_table
            (text "idempotency_key"))
      ∷ create_index false
          (index_on false (text "idx_file_transfers_status") file_transfers_table (text "status"))
      ∷ [];
  down =
      drop_index_if_exists (text "idx_file_transfers_status")
      ∷ drop_index_if_exists (text "uq_file_transfers_idempotency_key")
      ∷ drop_table_if_exists file_transfers_table
      ∷ drop_type_if_exists (text "file_transfers_status_enum")
      ∷ [];
}

abbrev pub add_checksum : Migration
add_checksum = record {
  up =
      add_column_if_absent file_transfers_table (optional (text "checksum_sha256") (varchar 64))
      ∷ [];
  down = drop_column_if_exists file_transfers_table (text "checksum_sha256") ∷ [];
}

abbrev pub create_users : Migration
create_users = record {
  up =
      create_table users_table
        (generated_id
          ∷ required (text "username") (varchar 255)
          ∷ required (text "password_hash") (varchar 255)
          ∷ required (text "roles") text_type
          ∷ stamped (text "created_at")
          ∷ stamped (text "updated_at")
          ∷ [])
        (text "pk_users") (text "id" ∷ [])
      ∷ create_index false (index_on true (text "uq_users_username") users_table (text "username"))
      ∷ [];
  down = drop_index_if_exists (text "uq_users_username") ∷ drop_table_if_exists users_table ∷ [];
}

abbrev pub create_outbox : Migration
create_outbox = record {
  up =
      create_type_if_absent (record {
        name = text "outbox_events_status_enum";
        values = text "PENDING" ∷ text "PUBLISHED" ∷ [];
      })
      ∷ create_table (text "outbox_events")
          (generated_id
            ∷ required (text "aggregate_id") uuid
            ∷ required (text "type") (varchar 100)
            ∷ required (text "payload") jsonb
            ∷ defaulted (text "status") (enum (text "outbox_events_status_enum"))
                (literal (text "PENDING"))
            ∷ defaulted (text "attempts") integer (literal (text "0"))
            ∷ stamped (text "created_at")
            ∷ optional (text "published_at") timestamptz
            ∷ [])
          (text "pk_outbox_events") (text "id" ∷ [])
      ∷ create_index false
          (index_on false (text "idx_outbox_status") (text "outbox_events") (text "status"))
      ∷ [];
  down =
      drop_index_if_exists (text "idx_outbox_status")
      ∷ drop_table_if_exists (text "outbox_events")
      ∷ drop_type_if_exists (text "outbox_events_status_enum")
      ∷ [];
}

abbrev pub add_encryption : Migration
add_encryption = record {
  up =
      add_column_if_absent file_transfers_table
        (defaulted (text "encrypted") boolean (literal (text "false")))
      ∷ add_column_if_absent file_transfers_table (optional (text "wrapped_dek") text_type)
      ∷ [];
  down =
      drop_column_if_exists file_transfers_table (text "wrapped_dek")
      ∷ drop_column_if_exists file_transfers_table (text "encrypted")
      ∷ [];
}

abbrev tenant_id : Column
tenant_id = defaulted (text "tenant_id") (varchar 100) (literal (text "default"))

abbrev pub add_tenancy_rls : Migration
add_tenancy_rls = record {
  up =
      add_column_if_absent users_table tenant_id
      ∷ add_column_if_absent file_transfers_table tenant_id
      ∷ create_index true (
          index_on false (text "idx_file_transfers_tenant") file_transfers_table (text "tenant_id"))
      ∷ set_row_security file_transfers_table true
      ∷ set_forced file_transfers_table true
      ∷ create_policy (record {
        name = text "tenant_isolation";
        table = file_transfers_table;
        columns = text "tenant_id" ∷ [];
      })
      ∷ [];
  down =
      drop_policy_if_exists (text "tenant_isolation") file_transfers_table
      ∷ set_forced file_transfers_table false
      ∷ set_row_security file_transfers_table false
      ∷ drop_index_if_exists (text "idx_file_transfers_tenant")
      ∷ drop_column_if_exists file_transfers_table (text "tenant_id")
      ∷ drop_column_if_exists users_table (text "tenant_id")
      ∷ [];
}

abbrev pub create_event_subscriptions : Migration
create_event_subscriptions = record {
  up =
      create_table (text "event_subscriptions")
        (generated_id
          ∷ required (text "tenant_id") (varchar 100)
          ∷ required (text "url") (varchar 2048)
          ∷ required (text "events") text_type
          ∷ required (text "secret") (varchar 255)
          ∷ defaulted (text "active") boolean (literal (text "true"))
          ∷ stamped (text "created_at")
          ∷ [])
        (text "pk_event_subscriptions") (text "id" ∷ [])
      ∷ create_index false (
          index_on false (text "idx_event_subs_tenant") (text "event_subscriptions")
            (text "tenant_id"))
      ∷ [];
  down =
      drop_index_if_exists (text "idx_event_subs_tenant")
      ∷ drop_table_if_exists (text "event_subscriptions")
      ∷ [];
}

abbrev pub create_tenant_usage : Migration
create_tenant_usage = record {
  up =
      create_table (text "tenant_usage")
        (required (text "tenant_id") (varchar 100)
          ∷ defaulted (text "object_count") bigint (literal (text "0"))
          ∷ defaulted (text "bytes_stored") bigint (literal (text "0"))
          ∷ stamped (text "updated_at")
          ∷ [])
        (text "pk_tenant_usage") (text "tenant_id" ∷ [])
      ∷ [];
  down = drop_table_if_exists (text "tenant_usage") ∷ [];
}

-- In the order of the timestamps of their names.
abbrev pub migrations : List Migration
migrations =
    init_file_transfers ∷ add_checksum ∷ create_users ∷ create_outbox ∷ add_encryption
    ∷ add_tenancy_rls ∷ create_event_subscriptions ∷ create_tenant_usage ∷ []

-- The statements that apply migrations, and those that take them back, the last one first.
abbrev pub ups : List Migration → List Statement
ups [] = []
ups (m ∷ ms) = m.up ++ ups ms

abbrev pub downs : List Migration → List Statement
downs [] = []
downs (m ∷ ms) = downs ms ++ m.down
