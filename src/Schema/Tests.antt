-- ===== src/Schema/Tests.antt =====
-- The migrations on a database in which there are TypeORM's own table and the extension uuid-ossp.
use basket_shared.Prelude.{true, false, [], ◌∷◌, take, All, text, text_eq, ◌≡◌, refl}
use basket_shared.Schema.{
  Schema, integer, bigint, varchar, done, failed, undefined_function, run, perform,
}
use basket_shared.Schema.Migrations.{required, migrations, ups, downs}
use basket_shared.Schema.Entities.{entities, is_mapped}
use basket_shared.Schema.Reverting.{is_foreign, downs-ups}
use basket_shared.Schema.Mapped.{entities-IsMapped}

abbrev bookkeeping : Schema
bookkeeping = record {
  uuid_ossp = true;
  types = [];
  tables =
      record {
        name = text "migrations";
        columns =
            required (text "id") integer
            ∷ required (text "timestamp") bigint
            ∷ required (text "name") (varchar 255)
            ∷ [];
        row_security = false;
        forced = false;
      }
      ∷ [];
  indexes =
      record {
        name = text "PK_8c82d7f526340ab734260ea46be";
        table = text "migrations";
        columns = text "id" ∷ [];
        unique = true;
        primary = true;
      }
      ∷ [];
  policies = [];
}

bookkeeping-is_foreign : is_foreign bookkeeping migrations ≡ true
unfolding text_eq
bookkeeping-is_foreign = refl

downs-ups_example :
    (t : Schema) × (run (ups (take 6 migrations)) bookkeeping ≡ done t)
    × (run (downs (take 6 migrations)) t ≡ done bookkeeping)
downs-ups_example = downs-ups 6 bookkeeping refl bookkeeping-is_foreign

entities-IsMapped_example :
    (t : Schema) × (run (ups migrations) bookkeeping ≡ done t)
    × All (λ e. is_mapped t e ≡ true) entities
entities-IsMapped_example = entities-IsMapped bookkeeping refl bookkeeping-is_foreign

-- Without the extension the second statement fails.
needs_uuid_ossp :
    run (ups migrations) (record bookkeeping { uuid_ossp = false }) ≡ failed undefined_function
unfolding perform text_eq
needs_uuid_ossp = refl
