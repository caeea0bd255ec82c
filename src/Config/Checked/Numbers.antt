-- ===== src/Config/Checked/Numbers.antt =====
-- What a number or a text that passed the constraints of env.validation.ts is, once it is read.
use native.Mathlib.Nat.{
  mul_right_comm, mul-le-mul_right, le-div_iff_mul-le, div-le_of_le-mul, one-le-pow,
}
use basket_shared.Prelude.{
  ℕ, ◌*◌, ◌/◌, ◌^◌, ◌≤◌, ◌<◌, ◌≡◌, refl, ap, subst, inl, inr, ◌∙◌, Bool, true, false, ◌&&◌, Option,
  none, some, leb, ◌==◌, if◌then◌else◌, Text, is_empty, Bool-cases, arith,
}
use basket_shared.Config.Number.{
  JsNumber, nan, infinite, finite, number, whole_number, overflows, as_natural, is_finite, times,
  rounded,
}
use basket_shared.Config.Environment.{
  num, Property, coerce, passes, is_valid, assigned, to_number, is_int, required_text, between,
  at_least, is_whole, at_or_above, at_or_below,
}
use basket_shared.Config.Settings.{read_int}

-- A natural number from `low` to `high`.
abbrev pub Within : ℕ → ℕ → JsNumber → Type 0
Within low high n = (m : ℕ) × (as_natural n ≡ some m) × (low ≤ m) × (m ≤ high)

-- A natural number from `low` on.
abbrev pub AtLeast : ℕ → JsNumber → Type 0
AtLeast low n = (m : ℕ) × (as_natural n ≡ some m) × (low ≤ m)

-- A text is there, and not empty.
abbrev pub IsGiven : Option Text → Type 0
IsGiven o = (s : Text) × (o ≡ some s) × (is_empty s ≡ false)

ten_pow_pos : (k : ℕ) → 0 < 10 ^ k
ten_pow_pos k = omega (arith, one-le-pow k 10)

and_both : (a b : Bool) → (a && b) ≡ true → (a ≡ true) × (b ≡ true)
and_both true b h = (refl, h)
and_both false b h = cc

leb→le : (a b : ℕ) → leb a b ≡ true → a ≤ b
leb→le a b h = ground arith

eq_of_== : (a b : ℕ) → (a == b) ≡ true → a ≡ b
eq_of_== a b h = ground arith

AtLeast-of_checks :
    (low : ℕ) (n : JsNumber) → is_whole n ≡ true → at_or_above low n ≡ true → AtLeast low n
AtLeast-of_checks low nan whole above = cc
AtLeast-of_checks low (infinite negative) whole above = cc
AtLeast-of_checks low (finite false d k) whole above =
    (d / 10 ^ k, rw whole refl, (le-div_iff_mul-le (ten_pow_pos k)).1 (leb→le _ _ above))
AtLeast-of_checks low (finite true d k) whole above =
    let (z, e) = and_both (low == 0) (d == 0) above in
    (d / 10 ^ k, rw (whole, e) refl, omega (arith, eq_of_== low 0 z))

Within-of_checks :
    (low high : ℕ) (n : JsNumber)
    → is_whole n ≡ true
    → at_or_above low n ≡ true
    → at_or_below high n ≡ true
    → Within low high n
Within-of_checks low high nan whole above below = cc
Within-of_checks low high (infinite negative) whole above below = cc
Within-of_checks low high (finite false d k) whole above below = (
  d / 10 ^ k,
  rw whole refl,
  (le-div_iff_mul-le (ten_pow_pos k)).1 (leb→le _ _ above),
  div-le_of_le-mul (10 ^ k) (grind (arith, leb→le d (high * 10 ^ k) below)),
)
Within-of_checks low high (finite true d k) whole above below =
    let (z, e) = and_both (low == 0) (d == 0) above in
    let nil : d ≡ 0 = eq_of_== d 0 e in
    (
      d / 10 ^ k,
      rw (whole, e) refl,
      omega (arith, eq_of_== low 0 z),
      div-le_of_le-mul (10 ^ k) (omega (arith, nil)),
    )

-- Where a whole number was validated, `int` reads the same one.
read_int_agrees :
    (p : Property) (initial : ℕ) (o : Option Text)
    → p.coercion ≡ to_number
    → p.initial ≡ num (whole_number initial)
    → passes is_int (assigned p o) ≡ true
    → assigned p o ≡ num (read_int o initial)
unfolding passes read_int coerce
read_int_agrees p initial none c i whole = i
read_int_agrees p initial (some s) c i whole = rw c (same (number s) (rw c at whole))
  where
    same :
        (n : JsNumber)
        → passes is_int (num n) ≡ true
        → num n ≡ num (if is_finite n then n else whole_number initial)
    same nan h = cc
    same (infinite negative) h = cc
    same (finite negative d k) h = refl

module _ (key : Text) (low initial : ℕ) (o : Option Text) where
  pub checked_number :
      is_valid (at_least key low initial) (assigned (at_least key low initial) o) ≡ true
      → (is_whole (read_int o initial) ≡ true) × (at_or_above low (read_int o initial) ≡ true)
  unfolding is_valid passes
  checked_number h =
      let p = at_least key low initial in
      let n = read_int o initial in
      let e = read_int_agrees p initial o refl refl (and_both _ _ h).0 in
      let (whole, rest) =
        and_both (is_whole n) (at_or_above low n && true) (subst (λ v. is_valid p v ≡ true) e h) in
      (whole, (and_both _ _ rest).0)

  pub AtLeast-of_valid :
      is_valid (at_least key low initial) (assigned (at_least key low initial) o) ≡ true
      → AtLeast low (read_int o initial)
  AtLeast-of_valid h =
      let (whole, above) = checked_number h in
      AtLeast-of_checks low (read_int o initial) whole above

module _ (key : Text) (low high initial : ℕ) (o : Option Text) where
  pub Within-of_valid :
      is_valid (between key low high initial) (assigned (between key low high initial) o) ≡ true
      → Within low high (read_int o initial)
  unfolding is_valid passes
  Within-of_valid h =
      let p = between key low high initial in
      let n = read_int o initial in
      let e = read_int_agrees p initial o refl refl (and_both _ _ h).0 in
      let (whole, rest) =
        and_both (is_whole n) (at_or_above low n && (at_or_below high n && true))
          (subst (λ v. is_valid p v ≡ true) e h) in
      let (above, last) = and_both _ (at_or_below high n && true) rest in
      Within-of_checks low high n whole above (and_both _ _ last).0

pub IsGiven-of_valid :
    (key : Text) (o : Option Text)
    → is_valid (required_text key) (assigned (required_text key) o) ≡ true
    → IsGiven o
unfolding is_valid passes coerce
IsGiven-of_valid key none h = cc
IsGiven-of_valid key (some s) h = (s, refl, ground arith)

overflows-zero : (k : ℕ) → overflows 0 k ≡ false
unfolding overflows
overflows-zero k = ground (arith, ten_pow_pos k)

-- The bound of a product, which may be infinite.
at_or_above-rounded :
    (low : ℕ) (n : JsNumber) → at_or_above low n ≡ true → at_or_above low (rounded n) ≡ true
unfolding rounded
at_or_above-rounded low nan h = h
at_or_above-rounded low (infinite negative) h = h
at_or_above-rounded low (finite false d k) h = elim (Bool-cases (overflows d k)) [
  | inl e ↦ rw e refl
  | inr e ↦ rw e h
]
at_or_above-rounded low (finite true d k) h =
    let nil : d ≡ 0 = eq_of_== d 0 (and_both (low == 0) (d == 0) h).1 in
    rw (ap (λ x. overflows x k) nil ∙ overflows-zero k) h

scale-le : (l t d k : ℕ) → l * t ≤ d → l * k * t ≤ d * k
scale-le l t d k h = rw (mul_right_comm l k t) (mul-le-mul_right k h)

le→leb : (a b : ℕ) → a ≤ b → leb a b ≡ true
le→leb a b h = ground arith

pub at_or_above-times :
    (low k : ℕ) (n : JsNumber)
    → 0 < k
    → at_or_above low n ≡ true
    → at_or_above (low * k) (times n k) ≡ true
unfolding times
at_or_above-times low k nan pos h = cc
at_or_above-times low k (infinite negative) pos h = ground arith
at_or_above-times low k (finite false d s) pos h =
    at_or_above-rounded (low * k) (finite false (d * k) s)
      (le→leb _ _ (scale-le low (10 ^ s) d k (leb→le _ _ h)))
at_or_above-times low k (finite true d s) pos h =
    let (z, e) = and_both (low == 0) (d == 0) h in
    let no_low : low ≡ 0 = eq_of_== low 0 z in
    let nil : d ≡ 0 = eq_of_== d 0 e in
    at_or_above-rounded (low * k) (finite true (d * k) s)
      (rw (ap (λ x. x * k) no_low, ap (λ x. x * k) nil) (ground arith))
