-- ===== src/Config/Tests.antt =====
-- Concrete environments, and the theorems of the configuration at them.
use basket_shared.Prelude.{
  ◌≡◌, refl, subst, if◌then◌else◌, inl, inr, true, false, not, Option, none, some, List, [], ◌∷◌,
  ◌++◌, map, filter, Text, text, text_eq, text_eq_iff, Bool-cases, lower_char, starts_with,
}
use basket_shared.Clamd.{is_space, trim_start, trim_end}
use basket_shared.Config.Number.{number, trim, overflows, as_natural, finite}
use basket_shared.Config.Json.{
  parse_json, array, object, item, no_items, member, no_members, numeral, string, boolean,
}
use basket_shared.Config.Environment.{
  Env, lookup, set, spread, Value, undefined, str, Property, coerce, passes, is_valid,
  environment_variables, find_property, ClassLibrary, Instance, valid, assigned, to_boolean,
}
use basket_shared.Config.Secrets.{
  Files, file_suffix, resolve_file_secrets, strip_suffix, validate_env,
}
use basket_shared.Config.Secrets.Laws.{secret_or, lookup-resolve_file_secrets}
use basket_shared.Config.Settings.{configuration, parse_json_map}
use basket_shared.Config.Checked.{IsChecked, configuration-IsChecked}
use basket_shared.Config.Flags.{av_enabled-padded}

-- A class-transformer and a class-validator.
abbrev given_or : Env → Text → Option Property → Value
given_or plain key none = undefined
given_or plain key (some p) = assigned p (lookup key plain)

abbrev convert : List Property → Env → Instance
convert properties plain key = given_or plain key (find_property key properties)

abbrev check_all : List Property → Instance → List Text
unfolding is_valid
check_all properties instance =
    map (λ p. p.key) (filter (λ p. not (is_valid p (instance p.key))) properties)

check_all-reports :
    (properties : List Property) (instance : Instance) (key : Text) (p : Property)
    → check_all properties instance ≡ []
    → find_property key properties ≡ some p
    → is_valid p (instance key) ≡ true
unfolding is_valid
check_all-reports [] instance key p clean found = cc
check_all-reports (q ∷ properties) instance key p clean found =
    elim (Bool-cases (is_valid q (instance q.key))) [
      | inr wrong ↦ absurd (filled (rw wrong at clean))
      | inl right ↦ elim (Bool-cases (text_eq q.key key)) [
        | inl same ↦
            subst (λ r. is_valid r (instance key) ≡ true) (some_inj (rw same at found))
              (subst (λ k. is_valid q (instance k) ≡ true) ((text_eq_iff q.key key).0 same) right)
        | inr other ↦
            check_all-reports properties instance key p (rw right at clean) (rw other at found)
      ]
    ]
  where
    filled : {x : Text} {xs : List Text} → x ∷ xs ≡ [] → ⊥
    filled h = cc

    some_inj : {a b : Property} → some a ≡ some b → a ≡ b
    some_inj h = cc

abbrev sample_library : ClassLibrary
sample_library = record {
  plain_to_instance = convert;
  validate_sync = check_all;
  converts = λ properties plain key p found. rw found refl;
  reports = check_all-reports;
}

abbrev secret_path : Text
secret_path = text "/run/secrets/jwt"

abbrev sample_files : Files
unfolding text_eq
sample_files path = if text_eq path secret_path then some (text " s3cret ") else none

abbrev sample_process : Env
sample_process =
    (text "WEBHOOK_SECRET", text "hook")
    ∷ (text "JWT_SECRET_FILE", secret_path)
    ∷ (text "ADMIN_PASSWORD", text "admin")
    ∷ (text "INGESTION_DATA_ROOT", text "/srv/sftpgo/data")
    ∷ (text "REDIS_HOST", text "redis")
    ∷ (text "REDIS_PORT", text " 6380 ")
    ∷ (text "POSTGRES_HOST", text "db")
    ∷ (text "POSTGRES_USER", text "app")
    ∷ (text "POSTGRES_PASSWORD", text "pw")
    ∷ (text "POSTGRES_DB", text "sync")
    ∷ (text "S3_REGION", text "eu")
    ∷ (text "S3_BUCKET", text "incoming")
    ∷ (text "S3_ACCESS_KEY_ID", text "id")
    ∷ (text "S3_SECRET_ACCESS_KEY", text "key")
    ∷ (text "AV_ENABLED", text " true")
    ∷ []

abbrev sample_config : Env
sample_config = (text "APP_PORT", text "8080") ∷ []

abbrev sample_settings : Env
unfolding spread resolve_file_secrets
sample_settings = spread (resolve_file_secrets sample_files sample_process) sample_config

abbrev sample_instance : Instance
sample_instance = convert environment_variables sample_settings

sample_accepted :
    (validate_env sample_library sample_files sample_process sample_config).1
    ≡ valid sample_instance
unfolding validate_env resolve_file_secrets spread environment_variables is_valid text_eq lookup set
    coerce to_boolean number trim trim_start trim_end is_space overflows starts_with strip_suffix
    lower_char passes
sample_accepted = refl

configuration-IsChecked_example : IsChecked (configuration sample_settings)
unfolding spread resolve_file_secrets
configuration-IsChecked_example =
    configuration-IsChecked sample_library sample_files sample_process sample_config sample_settings
      sample_instance sample_accepted (λ key. refl)

absent : lookup ((text "JWT_SECRET" ++ file_suffix) ++ file_suffix) sample_process ≡ none
unfolding lookup text_eq
absent = refl

lookup-resolve_file_secrets_example :
    lookup (text "JWT_SECRET") (resolve_file_secrets sample_files sample_process)
    ≡ secret_or sample_files sample_process (text "JWT_SECRET")
lookup-resolve_file_secrets_example =
    lookup-resolve_file_secrets sample_files sample_process (text "JWT_SECRET") absent

secret_is_trimmed : secret_or sample_files sample_process (text "JWT_SECRET") ≡ some (text "s3cret")
unfolding lookup text_eq trim trim_start trim_end is_space
secret_is_trimmed = refl

padded : lookup (text "AV_ENABLED") sample_process ≡ some (b' ' ∷ text "true")
unfolding lookup text_eq
padded = refl

blank_is_space : is_space b' ' ≡ true
unfolding is_space
blank_is_space = refl

av_enabled-padded_example :
    (to_boolean (str (b' ' ∷ text "true")) ≡ to_boolean (str (text "true")))
    × ((configuration sample_process).pipeline.av_enabled ≡ false)
av_enabled-padded_example =
    av_enabled-padded sample_process b' ' (text "true") blank_is_space padded

-- Numbers as `Number` reads them.
fraction_is_no_natural : as_natural (number (text "1.5")) ≡ none
unfolding number trim trim_start trim_end is_space overflows starts_with text_eq
fraction_is_no_natural = refl

exponent_is_read : as_natural (number (text "25e-1")) ≡ none
unfolding number trim trim_start trim_end is_space overflows starts_with text_eq
exponent_is_read = refl

whole_exponent : as_natural (number (text "2.50e2")) ≡ some 250
unfolding number trim trim_start trim_end is_space overflows starts_with text_eq
whole_exponent = refl

hexadecimal : as_natural (number (text "0x1F")) ≡ some 31
unfolding number trim trim_start trim_end is_space overflows starts_with text_eq
hexadecimal = refl

quotas_are_parsed :
    parse_json_map (some (text "{\"acme\": [1, true, \"x\\n\"]}"))
    ≡ object (
        member
          (text "acme")
          (array (
            item
              (numeral (finite false 1 0))
              (item (boolean true) (item (string (b'x' ∷ 10 ∷ [])) no_items))))
          no_members)
unfolding parse_json_map parse_json number trim trim_start trim_end is_space overflows starts_with
    text_eq
quotas_are_parsed = refl

scalars_are_no_map : parse_json_map (some (text " 12 ")) ≡ object no_members
unfolding parse_json_map parse_json number trim trim_start trim_end is_space overflows starts_with
    text_eq
scalars_are_no_map = refl
