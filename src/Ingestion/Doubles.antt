-- ===== src/Ingestion/Doubles.antt =====
-- The numbers of JavaScript where they are natural: the double that a number is rounded to, and the
-- digits that it is written with, below 10 ^ 21, from where on an exponent is written.
use basket_shared.Prelude.{
  ℕ, zero, suc, ◌+◌, ◌-◌, ◌*◌, ◌/◌, ◌%◌, ◌^◌, ◌<◌, ◌≤◌, ◌≡◌, refl, sym, ap, ◌∙◌, inl, inr, true,
  false, ◌⊎◌, ◌||◌, ◌&&◌, Option, none, some, ltb, ◌==◌, if◌then◌else◌, Bool-cases, arith,
}
use native.Mathlib.Nat.{mul_assoc}

-- The numbers below it are held exactly.
abbrev pub two_53 : ℕ
two_53 = 9007199254740992

-- The first 53 bits of a number, and what the last of them stands for, for numbers of at most 53 bits
-- more than the fuel.
unfoldable pub mantissa : ℕ → ℕ → ℕ
mantissa zero n = n
mantissa (suc fuel) n = let rest = mantissa fuel (n / 2) in if ltb n two_53 then n else rest

unfoldable pub spacing : ℕ → ℕ → ℕ
spacing zero n = 1
spacing (suc fuel) n = let rest = spacing fuel (n / 2) in if ltb n two_53 then 1 else rest * 2

-- To the nearest double, and to the even one of two.
unfoldable pub to_double : ℕ → ℕ
unfolding mantissa spacing
to_double n =
    let q = mantissa 17 n in
    let u = spacing 17 n in
    let r = n - q * u in if ltb u (r * 2) || (r * 2 == u) && q % 2 == 1 then (q + 1) * u else q * u

-- A multiple of `p` next to `d` that is read as `d`, the nearer one first.
abbrev of_two : (near far d : ℕ) → Option ℕ
of_two near far d =
    if to_double near == d then some near else if to_double far == d then some far else none

unfoldable pub rounded_to : (p d : ℕ) → Option ℕ
unfolding to_double
rounded_to p d =
    let low = d / p * p in
    let below = d - low in
    if ltb (below * 2) p || (below * 2 == p) && d / p % 2 == 0
    then of_two low (low + p) d
    else of_two (low + p) low d

-- `Number.prototype.toString` writes as few digits as are read as the double, and zeros after them.
unfoldable pub shortest : ℕ → ℕ → ℕ
unfolding rounded_to
shortest zero d = d
shortest (suc j) d = elim (rounded_to (10 ^ suc j) d) [ none ↦ shortest j d | some m ↦ m ]

-- The number whose numeral a number is written with.
unfoldable pub written : ℕ → ℕ
unfolding to_double shortest
written n = shortest 20 (to_double n)

-- Doubles are read as themselves.
spacing-small : (k n : ℕ) → n < two_53 → spacing k n ≡ 1
unfolding spacing
spacing-small zero n h = refl
spacing-small (suc k) n h = ground (arith, h)

mantissa-small : (k n : ℕ) → n < two_53 → mantissa k n ≡ n
unfolding mantissa
mantissa-small zero n h = refl
mantissa-small (suc k) n h = ground (arith, h)

spacing_pos : (k n : ℕ) → 0 < spacing k n
unfolding spacing
spacing_pos zero n = omega arith
spacing_pos (suc k) n = ground (arith, spacing_pos k (n / 2))

times_two : (c s : ℕ) → c * (s * 2) ≡ c * s * 2
times_two c s = sym (mul_assoc c s 2)

abbrev Divides : ℕ → ℕ → Type 0
Divides s v = (c : ℕ) × (v ≡ c * s)

-- Up to 2 ^ 53 times a spacing is a multiple of its own spacing.
Divides-spacing : (k n m : ℕ) → m ≤ two_53 → Divides (spacing k (m * spacing k n)) (m * spacing k n)
unfolding spacing
Divides-spacing zero n m h = (m * 1, omega arith)
Divides-spacing (suc k) n m h = elim (Bool-cases (ltb n two_53)) [
  | inl e ↦ rw e (small (Bool-cases (ltb (m * 1) two_53)))
  | inr e ↦
      let x = m * spacing k (n / 2) in
      let (c, d) = Divides-spacing k (n / 2) m h in
      rw (e, times_two m (spacing k (n / 2))) (large x c d (Bool-cases (ltb (x * 2) two_53)))
]
  where
    small :
        (ltb (m * 1) two_53 ≡ true) ⊎ (ltb (m * 1) two_53 ≡ false)
        → Divides (if ltb (m * 1) two_53 then 1 else spacing k (m * 1 / 2) * 2) (m * 1)
    small (inl e) = rw e (m, refl)
    small (inr e) =
        rw (e, spacing-small k (m * 1 / 2) (ground (arith, h, e))) (m / 2, ground (arith, h, e))

    large :
        (x c : ℕ)
        → x ≡ c * spacing k x
        → (ltb (x * 2) two_53 ≡ true) ⊎ (ltb (x * 2) two_53 ≡ false)
        → Divides (if ltb (x * 2) two_53 then 1 else spacing k (x * 2 / 2) * 2) (x * 2)
    large x c d (inl e) = rw e (x * 2, omega arith)
    large x c d (inr e) =
        let half : x * 2 / 2 ≡ x = omega arith in
        rw (e, half) (c, ap (λ y. y * 2) d ∙ sym (times_two c (spacing k x)))

-- A multiple of its spacing is its mantissa times its spacing.
mantissa-spacing : (k v c : ℕ) → v ≡ c * spacing k v → mantissa k v * spacing k v ≡ v
unfolding mantissa spacing
mantissa-spacing zero v c h = omega arith
mantissa-spacing (suc k) v c h = elim (Bool-cases (ltb v two_53)) [
  | inl e ↦ rw e (omega arith)
  | inr e ↦
      let s = spacing k (v / 2) in
      let twice : v ≡ c * s * 2 = (rw e at h) ∙ times_two c s in
      let half : v / 2 ≡ c * s = omega (arith, twice) in
      rw (e, times_two (mantissa k (v / 2)) s, mantissa-spacing k (v / 2) c half)
        (omega (arith, twice))
]

rounds_exactly :
    (q u v : ℕ)
    → q * u ≡ v
    → 0 < u
    → (if ltb u ((v - q * u) * 2) || ((v - q * u) * 2 == u) && q % 2 == 1
        then (q + 1) * u
        else q * u)
      ≡ v
rounds_exactly q u v e h =
    let nothing_left : v - q * u ≡ 0 = rw e (omega arith) in
    let above : ltb u 0 ≡ false = ground (arith, h) in
    let half : (0 == u) ≡ false = ground (arith, h) in rw (nothing_left, above, half) e

to_double-Divides : (v : ℕ) → Divides (spacing 17 v) v → to_double v ≡ v
unfolding to_double
to_double-Divides v (c, h) =
    rounds_exactly (mantissa 17 v) (spacing 17 v) v (mantissa-spacing 17 v c h) (spacing_pos 17 v)

abbrev bound : ℕ → ℕ
bound zero = two_53
bound (suc k) = bound k * 2

mantissa-bound : (k n : ℕ) → n < bound k → mantissa k n < two_53
unfolding mantissa
mantissa-bound zero n h = h
mantissa-bound (suc k) n h = elim (Bool-cases (ltb n two_53)) [
  | inl e ↦ rw e (ground (arith, e))
  | inr e ↦ rw e (mantissa-bound k (n / 2) (half n (bound k) h))
]
  where
    half : (n b : ℕ) → n < b * 2 → n / 2 < b
    half n b h = omega arith

-- From here on numbers are written with an exponent.
abbrev pub ten_21 : ℕ
ten_21 = 1000000000000000000000

to_double-to_double : (n : ℕ) → n < ten_21 → to_double (to_double n) ≡ to_double n
unfolding to_double
to_double-to_double n h =
    let q = mantissa 17 n in
    let u = spacing 17 n in
    let small : q < two_53 = mantissa-bound 17 n (omega arith) in
    elim (Bool-cases (ltb u ((n - q * u) * 2) || ((n - q * u) * 2 == u) && q % 2 == 1)) [
      | inl e ↦ rw e (to_double-Divides ((q + 1) * u) (Divides-spacing 17 n (q + 1) (omega arith)))
      | inr e ↦ rw e (to_double-Divides (q * u) (Divides-spacing 17 n q (omega arith)))
    ]

-- A numeral is read as the double that it is written for.
of_two-back : (near far d m : ℕ) → of_two near far d ≡ some m → to_double m ≡ d
of_two-back near far d m h = elim (Bool-cases (to_double near == d)) [
  | inl e ↦ let same : near ≡ m = injected (rw e at h) in ground (arith, same, e)
  | inr e ↦ elim (Bool-cases (to_double far == d)) [
    | inl k ↦ let same : far ≡ m = injected (rw (e, k) at h) in ground (arith, same, k)
    | inr k ↦ cc (rw (e, k) at h)
  ]
]
  where
    injected : {a b : ℕ} → some a ≡ some b → a ≡ b
    injected e = cc

rounded_to-back : (p d m : ℕ) → rounded_to p d ≡ some m → to_double m ≡ d
unfolding rounded_to
rounded_to-back p d m h =
    let low = d / p * p in
    let below = d - low in
    elim (Bool-cases (ltb (below * 2) p || (below * 2 == p) && d / p % 2 == 0)) [
      | inl e ↦ of_two-back low (low + p) d m (rw e at h)
      | inr e ↦ of_two-back (low + p) low d m (rw e at h)
    ]

shortest-back : (j d : ℕ) → to_double d ≡ d → to_double (shortest j d) ≡ d
unfolding shortest
shortest-back zero d h = h
shortest-back (suc j) d h = next (shortest-back j d h) (rounded_to (10 ^ suc j) d) refl
  where
    next :
        to_double (shortest j d) ≡ d
        → (o : Option ℕ) → rounded_to (10 ^ suc j) d ≡ o
        → to_double (elim o [ none ↦ shortest j d | some m ↦ m ]) ≡ d
    next ih none e = ih
    next ih (some m) e = rounded_to-back (10 ^ suc j) d m e

-- What a number is written as is read as the double of the number.
pub to_double-written : (n : ℕ) → n < ten_21 → to_double (written n) ≡ to_double n
unfolding written
to_double-written n h = shortest-back 20 (to_double n) (to_double-to_double n h)

-- Below 2 ^ 53 nothing is rounded.
pub to_double-exact : (n : ℕ) → n < two_53 → to_double n ≡ n
to_double-exact n h = to_double-Divides n (n, rw (spacing-small 17 n h) (omega arith))
