-- ===== src/Config/DataSource.antt =====
-- nestjs-app/src/database/data-source.ts and database/database.module.ts: how the command line of
-- the migrations and the running program connect to the database.
use basket_shared.Prelude.{
  ℕ, ◌≡◌, refl, ap, inl, inr, Bool-cases, Bool, true, false, Option, none, some, List, [], ◌∷◌, any,
  or_else, Text, text, text_eq, is_empty, lower,
}
use basket_shared.Config.Number.{JsNumber, number, whole_number, is_finite}
use basket_shared.Config.Environment.{Env, lookup}
use basket_shared.Config.Settings.{read_int, non_empty, either_text, configuration}
use basket_shared.Config.Settings.Tree.{DatabaseSettings}

pub record Connection : Type 0 where
  pub host : Option Text
  pub port : JsNumber
  pub username : Option Text
  pub password : Option Text
  pub database : Option Text
  pub synchronize : Bool
  pub logging : Bool

abbrev number_or : Option Text → ℕ → JsNumber
number_or none fallback = whole_number fallback
number_or (some v) fallback = number v

abbrev log_words : List Text
log_words = text "true" ∷ text "1" ∷ text "yes" ∷ []

unfoldable pub data_source_options : Env → Connection
unfolding non_empty number
data_source_options env = record {
  host = some (or_else (lookup (text "POSTGRES_HOST") env) (text "localhost"));
  port = number_or (lookup (text "POSTGRES_PORT") env) 5432;
  username = some (
      or_else
        (non_empty
          (either_text (lookup (text "APP_DB_USER") env) (lookup (text "POSTGRES_USER") env)))
        (text "syncbridge"));
  password = some (or_else (lookup (text "POSTGRES_PASSWORD") env) (text "syncbridge"));
  database = some (or_else (lookup (text "POSTGRES_DB") env) (text "syncbridge"));
  synchronize = false;
  logging = any (λ t. text_eq t (lower (or_else (lookup (text "DB_LOGGING") env) []))) log_words;
}

-- `useFactory` of the module.
abbrev pub type_orm_options : DatabaseSettings → Connection
type_orm_options db = record {
  host = db.host;
  port = db.port;
  username = db.username;
  password = db.password;
  database = db.database;
  synchronize = db.synchronize;
  logging = db.logging;
}

-- What a connection is to, and as whom.
abbrev target : Connection → Option Text × (JsNumber × (Option Text × (Option Text × Option Text)))
target o = (o.host, (o.port, (o.username, (o.password, o.database))))

-- A user is named, so that there is no need of a default.
own_user :
    (user : Text)
    → is_empty user ≡ false
    → (a : Option Text)
    → either_text a (some user)
      ≡ some (or_else (non_empty (either_text a (some user))) (text "syncbridge"))
unfolding non_empty
own_user user named none = rw named refl
own_user user named (some a) = elim (Bool-cases (is_empty a)) [
  | inl e ↦ rw (e, named) refl
  | inr e ↦ rw e (rw e refl)
]

-- Where the five variables of the database are set, the port as a finite number and the user as a
-- text that is not empty, the migrations' command line and the program connect to the same
-- database, as the same user.
type_orm_options-data_source_options :
    (env : Env) (host port user password database : Text)
    → lookup (text "POSTGRES_HOST") env ≡ some host
    → lookup (text "POSTGRES_PORT") env ≡ some port
    → is_finite (number port) ≡ true
    → lookup (text "POSTGRES_USER") env ≡ some user
    → is_empty user ≡ false
    → lookup (text "POSTGRES_PASSWORD") env ≡ some password
    → lookup (text "POSTGRES_DB") env ≡ some database
    → target (type_orm_options (configuration env).database) ≡ target (data_source_options env)
unfolding configuration read_int data_source_options non_empty
type_orm_options-data_source_options env host port user password database h p finite u named pw d =
    rw (h, p, finite, u, pw, d)
      (ap (λ x. (some host, (number port, (x, (some password, some database)))))
        (own_user user named (lookup (text "APP_DB_USER") env)))
