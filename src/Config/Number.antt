-- ===== src/Config/Number.antt =====
-- `Number(s)` of JavaScript for a string `s`. A finite number is the decimal fraction that was
-- written, not rounded to the nearest double; what rounds to infinity is infinite.
use basket_shared.Prelude.{
  ℕ, ◌+◌, ◌-◌, ◌*◌, ◌/◌, ◌%◌, ◌^◌, Bool, true, false, not, ◌&&◌, ◌||◌, Option, none, some, [], ◌∷◌,
  drop, leb, ◌==◌, if◌then◌else◌, Text, text, text_eq, is_empty, starts_with,
}
use basket_shared.Clamd.{trim_start, trim_end}

-- `finite n d k` is d / 10 ^ k, with a minus sign if `n`.
pub data JsNumber : Type 0 where
  nan : JsNumber
  infinite : (negative : Bool) → JsNumber
  finite : (negative : Bool) (digits scale : ℕ) → JsNumber

abbrev pub whole_number : ℕ → JsNumber
whole_number n = finite false n 0

-- `s.trim()`
unfoldable pub trim : Text → Text
unfolding trim_start trim_end
trim s = trim_end (trim_start s)

abbrev is_digit : ℕ → Bool
is_digit c = leb b'0' c && leb c b'9'

-- The value of a digit in a base up to 16; 16 for what is no digit.
digit_value : ℕ → ℕ
digit_value c =
    if is_digit c
    then c - b'0'
    else if leb b'a' c && leb c b'f'
    then c - b'a' + 10
    else if leb b'A' c && leb c b'F'
    then c - b'A' + 10
    else 16

-- All of `s` as digits of the base, behind those read so far.
radix_digits : ℕ → ℕ → Text → Option ℕ
unfolding digit_value
radix_digits base n [] = some n
radix_digits base n (c ∷ s) =
    let d = digit_value c in
    let rest = radix_digits base (n * base + d) s in if leb base d then none else rest

radix_number : ℕ → Text → JsNumber
unfolding radix_digits
radix_number base [] = nan
radix_number base (c ∷ s) = elim (radix_digits base 0 (c ∷ s)) [
  | none ↦ nan
  | some n ↦ finite false n 0
]

-- The longest run of decimal digits: its value behind `n`, its length, and what follows.
unfoldable pub decimal_run : ℕ → ℕ → Text → ℕ × ℕ × Text
decimal_run n k [] = (n, k, [])
decimal_run n k (c ∷ s) =
    let rest = decimal_run (n * 10 + (c - b'0')) (k + 1) s in
    if is_digit c then rest else (n, k, c ∷ s)

-- d / 10 ^ k times 10 ^ e, or 10 ^ -e.
abbrev scaled : Bool → ℕ → ℕ → Bool → ℕ → JsNumber
scaled negative d k minus e =
    if minus
    then finite negative d (k + e)
    else if leb k e
    then finite negative (d * 10 ^ (e - k)) 0
    else finite negative d (k - e)

abbrev exponent_digits : Bool → ℕ → ℕ → Bool → Text → JsNumber
exponent_digits negative d k minus s =
    let (e, n, rest) = decimal_run 0 0 s in
    if n == 0 || not (is_empty rest) then nan else scaled negative d k minus e

-- What stands behind an "e".
abbrev exponent_part : Bool → ℕ → ℕ → Text → JsNumber
exponent_part negative d k [] = nan
exponent_part negative d k (c ∷ s) =
    if c == b'-'
    then exponent_digits negative d k true s
    else if c == b'+'
    then exponent_digits negative d k false s
    else exponent_digits negative d k false (c ∷ s)

abbrev exponent : Bool → ℕ → ℕ → Text → JsNumber
exponent negative d k [] = finite negative d k
exponent negative d k (c ∷ s) = if c == b'e' || c == b'E' then exponent_part negative d k s else nan

-- The fraction behind `n` whole digits.
abbrev fraction : Bool → ℕ → ℕ → Text → JsNumber
fraction negative d n [] = if n == 0 then nan else finite negative d 0
fraction negative d n (c ∷ s) =
    if c == b'.'
    then (let (d', m, rest) = decimal_run d 0 s in
        if n + m == 0 then nan else exponent negative d' m rest)
    else if n == 0
    then nan
    else exponent negative d 0 (c ∷ s)

decimal_number : Bool → Text → JsNumber
unfolding decimal_run
decimal_number negative s =
    if text_eq s (text "Infinity")
    then infinite negative
    else (let (d, n, rest) = decimal_run 0 0 s in fraction negative d n rest)

abbrev signed : Text → JsNumber
unfolding decimal_number
signed [] = nan
signed (c ∷ s) =
    if c == b'-'
    then decimal_number true s
    else if c == b'+'
    then decimal_number false s
    else decimal_number false (c ∷ s)

-- From 2 ^ 1024 - 2 ^ 970 on, the nearest double is infinite.
unfoldable pub overflows : ℕ → ℕ → Bool
overflows d k = leb ((2 ^ 1024 - 2 ^ 970) * 10 ^ k) d

unfoldable pub rounded : JsNumber → JsNumber
rounded (finite negative d k) = if overflows d k then infinite negative else finite negative d k
rounded n = n

numeric : Text → JsNumber
unfolding signed radix_number starts_with rounded overflows
numeric s =
    if starts_with (text "0x") s || starts_with (text "0X") s
    then rounded (radix_number 16 (drop 2 s))
    else if starts_with (text "0o") s || starts_with (text "0O") s
    then rounded (radix_number 8 (drop 2 s))
    else if starts_with (text "0b") s || starts_with (text "0B") s
    then rounded (radix_number 2 (drop 2 s))
    else rounded (signed s)

-- A blank string is 0.
unfoldable pub number : Text → JsNumber
unfolding numeric trim
number s = let t = trim s in if is_empty t then finite false 0 0 else numeric t

-- `Number.isFinite`
abbrev pub is_finite : JsNumber → Bool
is_finite (finite negative d k) = true
is_finite _ = false

-- `n * k`, for a factor that is a natural number.
unfoldable pub times : JsNumber → ℕ → JsNumber
unfolding rounded
times nan k = nan
times (infinite negative) k = if k == 0 then nan else infinite negative
times (finite negative d s) k = rounded (finite negative (d * k) s)

-- The natural number that a number is, if it is one.
abbrev pub as_natural : JsNumber → Option ℕ
as_natural (finite negative d k) =
    if d % 10 ^ k == 0 && (not negative || d == 0) then some (d / 10 ^ k) else none
as_natural _ = none
