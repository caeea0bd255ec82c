-- ===== src/Config/Secrets/Laws.antt =====
-- What `resolveFileSecrets` of config/env.validation.ts makes of each variable.
use basket_shared.Prelude.{
  ℕ, Bool, true, false, ◌≡◌, refl, sym, ap, subst, inl, inr, ◌∙◌, Option, none, some, List, [], ◌∷◌,
  ◌++◌, ◌||◌, any, is_some, length, length-append, if◌then◌else◌, Text, text_eq, text_eq_iff,
  text_eq_refl, is_empty, Bool-cases, Option-cases, not_both, arith,
}
use basket_shared.Config.Number.{trim}
use basket_shared.Config.Environment.{Env, lookup, set}
use basket_shared.Config.Secrets.{
  file_suffix, Files, prefixed, strip_suffix, store, read_from, resolve_key, resolve_keys, keys_of,
  resolve_file_secrets,
}

pub lookup-set :
    (key j value : Text) (env : Env)
    → lookup j (set key value env) ≡ (if text_eq key j then some value else lookup j env)
unfolding lookup set
lookup-set key j value [] = refl
lookup-set key j value ((k, v) ∷ env) =
    ground
      (arith, text_eq_iff key j, text_eq_iff k key, text_eq_iff k j, lookup-set key j value env)

longer : (c : ℕ) (base : Text) → text_eq (c ∷ base ++ file_suffix) file_suffix ≡ false
longer c base = elim (Bool-cases (text_eq (c ∷ base ++ file_suffix) file_suffix)) [
  | inl same ↦
      let e = ap length ((text_eq_iff (c ∷ base ++ file_suffix) file_suffix).0 same) in
      absurd (omega (arith, e, length-append base file_suffix))
  | inr other ↦ other
]

strip_suffix-append : (base : Text) → strip_suffix (base ++ file_suffix) ≡ some base
unfolding strip_suffix
strip_suffix-append [] = rw (text_eq_refl file_suffix) refl
strip_suffix-append (c ∷ base) = rw (longer c base) (ap (prefixed c) (strip_suffix-append base))

prefixed-eq_some :
    (c : ℕ) (o : Option Text) (base : Text)
    → prefixed c o ≡ some base
    → (rest : Text) × (o ≡ some rest) × (base ≡ c ∷ rest)
prefixed-eq_some c none base h = cc
prefixed-eq_some c (some rest) base h = (rest, refl, cc)

append-strip_suffix : (key base : Text) → strip_suffix key ≡ some base → key ≡ base ++ file_suffix
unfolding strip_suffix
append-strip_suffix [] base h = cc
append-strip_suffix (c ∷ s) base h = elim (Bool-cases (text_eq (c ∷ s) file_suffix)) [
  | inl same ↦
      let e : some [] ≡ some base = rw same at h in
      (text_eq_iff (c ∷ s) file_suffix).0 same ∙ ap (λ b. b ++ file_suffix) (some_inj e)
  | inr other ↦
      let e : prefixed c (strip_suffix s) ≡ some base = rw other at h in
      let (rest, found, same) = prefixed-eq_some c (strip_suffix s) base e in
      rw same (ap (λ t. c ∷ t) (append-strip_suffix s rest found))
]
  where
    some_inj : {a b : Text} → some a ≡ some b → a ≡ b
    some_inj q = cc

-- What a variable is to be: the trimmed content of the file that its `_FILE` variable names, if
-- there is one and it can be read, and what it was otherwise.
abbrev content_or : Option Text → Option Text → Option Text
content_or none old = old
content_or (some content) old = some (trim content)

abbrev from_file : Files → Option Text → Option Text → Option Text
from_file files none old = old
from_file files (some path) old = if is_empty path then old else content_or (files path) old

abbrev pub secret_or : Files → Env → Text → Option Text
secret_or files env base = from_file files (lookup (base ++ file_suffix) env) (lookup base env)

from_file_again :
    (files : Files) (o old : Option Text)
    → from_file files o (from_file files o old) ≡ from_file files o old
from_file_again files none old = refl
from_file_again files (some path) old = elim (Bool-cases (is_empty path)) [
  | inl e ↦ rw e refl
  | inr e ↦ rw e (again (files path))
]
  where
    again : (c : Option Text) → content_or c (content_or c old) ≡ content_or c old
    again none = refl
    again (some content) = refl

module _ (files : Files) (env : Env) where
  lookup-store_other :
      (base j : Text) (c : Option Text)
      → text_eq base j ≡ false
      → lookup j (store base c env) ≡ lookup j env
  lookup-store_other base j none other = refl
  lookup-store_other base j (some content) other =
      lookup-set base j (trim content) env ∙ (rw other refl)

  lookup-store_self :
      (j : Text) (c : Option Text) → lookup j (store j c env) ≡ content_or c (lookup j env)
  lookup-store_self j none = refl
  lookup-store_self j (some content) =
      lookup-set j j (trim content) env ∙ (rw (text_eq_refl j) refl)

  lookup-read_from_other :
      (base j : Text) (o : Option Text)
      → text_eq base j ≡ false
      → lookup j (read_from files base o env) ≡ lookup j env
  lookup-read_from_other base j none other = refl
  lookup-read_from_other base j (some path) other = elim (Bool-cases (is_empty path)) [
    | inl e ↦ rw e refl
    | inr e ↦ rw e (lookup-store_other base j (files path) other)
  ]

  lookup-read_from_self :
      (j : Text) (o : Option Text)
      → lookup j (read_from files j o env) ≡ from_file files o (lookup j env)
  lookup-read_from_self j none = refl
  lookup-read_from_self j (some path) = elim (Bool-cases (is_empty path)) [
    | inl e ↦ rw e refl
    | inr e ↦ rw e (lookup-store_self j (files path))
  ]

  lookup-resolve_key_other :
      (j key : Text)
      → text_eq key (j ++ file_suffix) ≡ false
      → lookup j (resolve_key files key (strip_suffix key) env) ≡ lookup j env
  lookup-resolve_key_other j key other = elim (Option-cases (strip_suffix key)) [
    | inl e ↦ rw e refl
    | inr (base, e) ↦ rw e (lookup-read_from_other base j (lookup key env) (apart base e))
  ]
    where
      apart : (base : Text) → strip_suffix key ≡ some base → text_eq base j ≡ false
      apart base e = elim (Bool-cases (text_eq base j)) [
        | inl same ↦
            let f : key ≡ j ++ file_suffix =
              append-strip_suffix key base e
              ∙ ap (λ b. b ++ file_suffix) ((text_eq_iff base j).0 same) in
            absurd (not_both other ((text_eq_iff key (j ++ file_suffix)).1 f))
        | inr distinct ↦ distinct
      ]

  lookup-resolve_key_self :
      (j : Text)
      → lookup j (resolve_key files (j ++ file_suffix) (strip_suffix (j ++ file_suffix)) env)
        ≡ secret_or files env j
  lookup-resolve_key_self j =
      rw (strip_suffix-append j) (lookup-read_from_self j (lookup (j ++ file_suffix) env))

abbrev has : Text → List Text → Bool
has key keys = any (λ k. text_eq k key) keys

has-keys_of : (key : Text) (env : Env) → has key (keys_of env) ≡ is_some (lookup key env)
unfolding lookup
has-keys_of key [] = refl
has-keys_of key ((k, v) ∷ env) = elim (Bool-cases (text_eq k key)) [
  | inl e ↦ rw e refl
  | inr e ↦ rw e (has-keys_of key env)
]

none_of_is_some : (o : Option Text) → is_some o ≡ false → o ≡ none
none_of_is_some none h = refl
none_of_is_some (some a) h = cc

module _ (files : Files) (base : Text) where
  name : Text
  name = base ++ file_suffix

  lookup-resolve_keys :
      (keys : List Text) (env : Env)
      → has (name ++ file_suffix) keys ≡ false
      → lookup base (resolve_keys files keys env)
        ≡ (if has name keys then secret_or files env base else lookup base env)
  unfolding resolve_keys name
  lookup-resolve_keys [] env absent = refl
  lookup-resolve_keys (key ∷ keys) env absent =
      let env' = resolve_key files key (strip_suffix key) env in
      let (other, rest) = both (text_eq key (name ++ file_suffix)) _ absent in
      let kept = lookup-resolve_key_other files env name key other in
      let ih = lookup-resolve_keys keys env' rest in
      elim (Bool-cases (text_eq key name)) [
        | inl same ↦
            let self : lookup base env' ≡ secret_or files env base =
              subst
                (λ k.
                  lookup base (resolve_key files k (strip_suffix k) env) ≡ secret_or files env base)
                (sym ((text_eq_iff key name).0 same)) (lookup-resolve_key_self files env base) in
            let again : secret_or files env' base ≡ secret_or files env base =
              ap (λ o. from_file files o (lookup base env')) kept
              ∙ ap (from_file files (lookup name env)) self
              ∙ from_file_again files (lookup name env) (lookup base env) in
            rw same (ih ∙ either (has name keys) again self)
        | inr distinct ↦
            let old = lookup-resolve_key_other files env base key distinct in
            let again : secret_or files env' base ≡ secret_or files env base =
              ap (λ o. from_file files o (lookup base env')) kept
              ∙ ap (from_file files (lookup name env)) old in
            rw distinct (ih ∙ branches (has name keys) again old)
      ]
    where
      both : (a b : Bool) → (a || b) ≡ false → (a ≡ false) × (b ≡ false)
      both false b h = (refl, h)
      both true b h = cc

      either : (b : Bool) {x y z : Option Text} → x ≡ z → y ≡ z → (if b then x else y) ≡ z
      either true p q = p
      either false p q = q

      branches :
          (b : Bool) {x y x' y' : Option Text}
          → x ≡ x'
          → y ≡ y'
          → (if b then x else y) ≡ (if b then x' else y')
      branches true p q = p
      branches false p q = q

-- After `resolveFileSecrets` a variable holds the trimmed content of the file that its `_FILE`
-- variable names, if there is one, not empty, whose file can be read, whatever it held before, and
-- otherwise what it held before; provided that the `_FILE` variable has no `_FILE` variable itself.
pub lookup-resolve_file_secrets :
    (files : Files) (env : Env) (base : Text)
    → lookup ((base ++ file_suffix) ++ file_suffix) env ≡ none
    → lookup base (resolve_file_secrets files env) ≡ secret_or files env base
unfolding resolve_file_secrets name
lookup-resolve_file_secrets files env base absent =
    let name = base ++ file_suffix in
    lookup-resolve_keys files base (keys_of env) env
      (rw (has-keys_of (name ++ file_suffix) env, absent) refl)
    ∙ rw (has-keys_of name env) (finish (lookup name env))
  where
    finish :
        (o : Option Text)
        → (if is_some o then from_file files o (lookup base env) else lookup base env)
          ≡ from_file files o (lookup base env)
    finish none = refl
    finish (some path) = refl
