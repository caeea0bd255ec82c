-- ===== src/Config/Secrets.antt =====
-- `resolveFileSecrets` and `validateEnv` of nestjs-app/src/config/env.validation.ts.
pub mod Laws
use mathlib.Core.List.{map}
use basket_shared.Prelude.{
  ℕ, Option, none, some, List, [], ◌∷◌, if◌then◌else◌, Text, text, text_eq, is_empty,
}
use basket_shared.Config.Number.{trim}
use basket_shared.Config.Environment.{
  Env, lookup, set, spread, ClassLibrary, environment_variables, Validated, or_invalid,
}

abbrev pub file_suffix : Text
file_suffix = text "_FILE"

-- What `readFileSync(path, 'utf8')` returns; `none` where it throws.
abbrev pub Files : Type 0
Files = Text → Option Text

abbrev prefixed : ℕ → Option Text → Option Text
prefixed c none = none
prefixed c (some base) = some (c ∷ base)

-- What stands before the suffix, if `key.endsWith('_FILE')`.
unfoldable pub strip_suffix : Text → Option Text
strip_suffix [] = none
strip_suffix (c ∷ s) = if text_eq (c ∷ s) file_suffix then some [] else prefixed c (strip_suffix s)

abbrev store : Text → Option Text → Env → Env
store base none env = env
store base (some content) env = set base (trim content) env

abbrev read_from : Files → Text → Option Text → Env → Env
read_from files base none env = env
read_from files base (some path) env = if is_empty path then env else store base (files path) env

abbrev resolve_key : Files → Text → Option Text → Env → Env
resolve_key files key none env = env
resolve_key files key (some base) env = read_from files base (lookup key env) env

-- The loop over the names that `process.env` had at its start.
unfoldable pub resolve_keys : Files → List Text → Env → Env
unfolding strip_suffix lookup set trim
resolve_keys files [] env = env
resolve_keys files (key ∷ keys) env =
    resolve_keys files keys (resolve_key files key (strip_suffix key) env)

abbrev pub keys_of : Env → List Text
keys_of env = map (λ v. v.0) env

unfoldable pub resolve_file_secrets : Files → Env → Env
unfolding resolve_keys
resolve_file_secrets files env = resolve_keys files (keys_of env) env

-- The new `process.env`, and the validated configuration or its errors. `config` is what
-- ConfigModule hands to the hook.
unfoldable pub validate_env : ClassLibrary → Files → Env → Env → Env × Validated
unfolding resolve_file_secrets spread environment_variables
validate_env library files env config =
    let env' = resolve_file_secrets files env in
    let validated = library.plain_to_instance environment_variables (spread env' config) in
    (env', or_invalid (library.validate_sync environment_variables validated) validated)
