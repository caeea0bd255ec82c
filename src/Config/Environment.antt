-- ===== src/Config/Environment.antt =====
-- nestjs-app/src/config/env.validation.ts: the class `EnvironmentVariables`, as the list of its
-- properties with what their decorators ask for, and the hook `validateEnv`. class-transformer and
-- class-validator are parameters, with their documented behaviour as laws.
pub mod Variables
unfoldable pub use Variables.{to_boolean, environment_variables}
pub use Variables.{
  Value, undefined, str, num, truthy, Property, required_text, at_least, between, to_number, is_int,
}
use basket_shared.Config.Environment.Variables.{
  bool, Coercion, Constraint, is_in, as_it_is, by_to_boolean, is_string, is_not_empty, is_boolean,
  min, max,
}
use basket_shared.Prelude.{
  ℕ, ◌*◌, ◌%◌, ◌^◌, ◌≡◌, Bool, true, false, not, ◌&&◌, ◌||◌, Option, none, some, List, [], ◌∷◌, any,
  find, leb, ◌==◌, if◌then◌else◌, Text, text_eq, is_empty,
}
use basket_shared.Config.Number.{JsNumber, finite, number}

-- `process.env`, and any plain object of texts.
abbrev pub Env : Type 0
Env = List (Text × Text)

unfoldable pub lookup : Text → Env → Option Text
lookup key [] = none
lookup key ((k, v) ∷ env) = if text_eq k key then some v else lookup key env

-- `env[key] = value`
unfoldable pub set : Text → Text → Env → Env
set key value [] = (key, value) ∷ []
set key value ((k, v) ∷ env) =
    if text_eq k key then (k, value) ∷ env else (k, v) ∷ set key value env

-- `{ ...process.env, ...config }`
unfoldable pub spread : Env → Env → Env
unfolding set
spread env [] = env
spread env ((k, v) ∷ config) = spread (set k v env) config

-- What the decorators of class-validator ask of a value, as documented.
abbrev pub is_whole : JsNumber → Bool
is_whole (finite negative d k) = d % 10 ^ k == 0
is_whole _ = false

abbrev pub at_or_above : ℕ → JsNumber → Bool
at_or_above low (finite false d k) = leb (low * 10 ^ k) d
at_or_above low (finite true d k) = low == 0 && d == 0
at_or_above low (JsNumber.infinite negative) = not negative
at_or_above low JsNumber.nan = false

abbrev pub at_or_below : ℕ → JsNumber → Bool
at_or_below high (finite false d k) = leb d (high * 10 ^ k)
at_or_below high (finite true d k) = true
at_or_below high (JsNumber.infinite negative) = negative
at_or_below high JsNumber.nan = false

unfoldable pub passes : Constraint → Value → Bool
passes is_int (num n) = is_whole n
passes (min low) (num n) = at_or_above low n
passes (max high) (num n) = at_or_below high n
passes is_string (str s) = true
passes is_not_empty (str s) = not (is_empty s)
passes is_not_empty (num n) = true
passes is_not_empty (bool b) = true
passes is_boolean (bool b) = true
passes (is_in texts) (str s) = any (text_eq s) texts
passes _ _ = false

-- What a property's coercion makes of the variable's text.
unfoldable pub coerce : Coercion → Text → Value
unfolding to_boolean number
coerce as_it_is s = str s
coerce to_number s = num (number s)
coerce by_to_boolean s = bool (to_boolean (str s))

abbrev pub find_property : Text → List Property → Option Property
find_property key properties = find (λ p. text_eq p.key key) properties

abbrev pub is_absent : Value → Bool
is_absent undefined = true
is_absent _ = false

all_pass : List Constraint → Value → Bool
unfolding passes
all_pass [] v = true
all_pass (c ∷ constraints) v = passes c v && all_pass constraints v

-- `@IsOptional` skips the checks of a value that is not there.
unfoldable pub is_valid : Property → Value → Bool
unfolding all_pass
is_valid p v = (p.is_optional && is_absent v) || all_pass p.constraints v

-- The object of the class, read by its properties' names.
abbrev pub Instance : Type 0
Instance = Text → Value

abbrev pub assigned : Property → Option Text → Value
assigned p none = p.initial
assigned p (some s) = coerce p.coercion s

-- `plainToInstance` and `validateSync`. The errors are given by the names of their properties.
pub record ClassLibrary : Type 0 where
  pub plain_to_instance : List Property → Env → Instance
  pub validate_sync : List Property → Instance → List Text
  -- A property is converted as its decorators say, or keeps its initial value.
  pub converts :
      (properties : List Property) (plain : Env) (key : Text) (p : Property)
      → find_property key properties ≡ some p
      → plain_to_instance properties plain key ≡ assigned p (lookup key plain)
  -- No errors are reported only if every property is valid.
  pub reports :
      (properties : List Property) (instance : Instance) (key : Text) (p : Property)
      → validate_sync properties instance ≡ []
      → find_property key properties ≡ some p
      → is_valid p (instance key) ≡ true

-- What the validated configuration is, or the names of the variables that are wrong.
pub data Validated : Type 0 where
  valid : Instance → Validated
  invalid : List Text → Validated

abbrev pub or_invalid : List Text → Instance → Validated
or_invalid [] instance = valid instance
or_invalid (e ∷ errors) instance = invalid (e ∷ errors)
