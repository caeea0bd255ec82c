-- ===== src/Crypto/Base64.antt =====
-- Buffers in base64, as `toString('base64')` writes them and `Buffer.from(s, 'base64')` reads them.
use basket_shared.Prelude.{
  ℕ, ◌+◌, ◌*◌, ◌-◌, ◌/◌, ◌%◌, ◌<◌, ◌≡◌, refl, ap, ◌||◌, ◌&&◌, Option, none, some, [], ◌∷◌, ltb, leb,
  ◌==◌, if◌then◌else◌, Text, All, arith,
}
use basket_shared.Crypto.{Bytes}

abbrev base64_char : ℕ → ℕ
base64_char v =
    if ltb v 26
    then v + b'A'
    else if ltb v 52
    then v - 26 + b'a'
    else if ltb v 62
    then v - 52 + b'0'
    else if v == 62
    then b'+'
    else b'/'

-- Three bytes as four characters, and the rest padded with `=`.
unfoldable pub to_base64 : Bytes → Text
to_base64 [] = []
to_base64 (a ∷ []) = base64_char (a / 4) ∷ base64_char (a % 4 * 16) ∷ b'=' ∷ b'=' ∷ []
to_base64 (a ∷ b ∷ []) =
    base64_char (a / 4) ∷ base64_char (a % 4 * 16 + b / 16) ∷ base64_char (b % 16 * 4) ∷ b'=' ∷ []
to_base64 (a ∷ b ∷ c ∷ s) =
    base64_char (a / 4)
    ∷ base64_char (a % 4 * 16 + b / 16)
    ∷ base64_char (b % 16 * 4 + c / 64)
    ∷ base64_char (c % 64)
    ∷ to_base64 s

-- Both alphabets are read: `-` and `_` stand for `+` and `/`.
abbrev sextet : ℕ → Option ℕ
sextet c =
    if leb b'A' c && leb c b'Z'
    then some (c - b'A')
    else if leb b'a' c && leb c b'z'
    then some (c - b'a' + 26)
    else if leb b'0' c && leb c b'9'
    then some (c - b'0' + 52)
    else if c == b'+' || c == b'-'
    then some 62
    else if c == b'/' || c == b'_'
    then some 63
    else none

-- The first `=` ends the text, and other characters, white space too, are passed over.
unfoldable pub sextets : Text → Bytes
sextets [] = []
sextets (c ∷ s) =
    let rest = sextets s in
    if c == b'=' then [] else elim (sextet c) [ none ↦ rest | some v ↦ v ∷ rest ]

unfoldable pub joined : Bytes → Bytes
joined (p ∷ q ∷ r ∷ t ∷ s) = (p * 4 + q / 16) ∷ (q % 16 * 16 + r / 4) ∷ (r % 4 * 64 + t) ∷ joined s
joined (p ∷ q ∷ r ∷ []) = (p * 4 + q / 16) ∷ (q % 16 * 16 + r / 4) ∷ []
joined (p ∷ q ∷ []) = (p * 4 + q / 16) ∷ []
joined _ = []

unfoldable pub from_base64 : Text → Bytes
unfolding sextets joined
from_base64 s = joined (sextets s)

sextets-base64_char : (v : ℕ) (s : Text) → v < 64 → sextets (base64_char v ∷ s) ≡ v ∷ sextets s
unfolding sextets
sextets-base64_char v s h = ground arith

-- The bytes that the sextets of three bytes hold.
first_byte : (a b : ℕ) → b < 256 → a / 4 * 4 + (a % 4 * 16 + b / 16) / 16 ≡ a
first_byte a b h = omega arith

second_byte :
    (a b c : ℕ)
    → b < 256
    → c < 256
    → (a % 4 * 16 + b / 16) % 16 * 16 + (b % 16 * 4 + c / 64) / 4 ≡ b
second_byte a b c h k = omega arith

third_byte : (b c : ℕ) → c < 256 → (b % 16 * 4 + c / 64) % 4 * 64 + c % 64 ≡ c
third_byte b c h = omega arith

pub from_base64-to_base64 :
    (bytes : Bytes) → All (λ b. b < 256) bytes → from_base64 (to_base64 bytes) ≡ bytes
unfolding from_base64 to_base64 joined
from_base64-to_base64 [] h = refl
from_base64-to_base64 (a ∷ []) (p, h) =
    rw
      (
        sextets-base64_char (a / 4) (base64_char (a % 4 * 16) ∷ b'=' ∷ b'=' ∷ []) (omega arith),
        sextets-base64_char (a % 4 * 16) (b'=' ∷ b'=' ∷ []) (omega arith),
      )
      (ap (λ x. x ∷ []) (omega arith))
from_base64-to_base64 (a ∷ b ∷ []) (p, (q, h)) =
    rw
      (
        sextets-base64_char (a / 4)
            (base64_char (a % 4 * 16 + b / 16) ∷ base64_char (b % 16 * 4) ∷ b'=' ∷ [])
            (omega arith),
        sextets-base64_char (a % 4 * 16 + b / 16) (base64_char (b % 16 * 4) ∷ b'=' ∷ [])
            (omega arith),
        sextets-base64_char (b % 16 * 4) (b'=' ∷ []) (omega arith),
        first_byte a b q,
      )
      (ap (λ x. a ∷ x ∷ []) (omega arith))
from_base64-to_base64 (a ∷ b ∷ c ∷ s) (p, (q, (r, h))) =
    let second = a % 4 * 16 + b / 16 in
    let third = b % 16 * 4 + c / 64 in
    let rest = to_base64 s in
    rw
      (
        sextets-base64_char (a / 4)
            (base64_char second ∷ base64_char third ∷ base64_char (c % 64) ∷ rest) (omega arith),
        sextets-base64_char second (base64_char third ∷ base64_char (c % 64) ∷ rest) (omega arith),
        sextets-base64_char third (base64_char (c % 64) ∷ rest) (omega arith),
        sextets-base64_char (c % 64) rest (omega arith),
        first_byte a b q,
        second_byte a b c q r,
        third_byte b c r,
      )
      (ap (λ x. a ∷ b ∷ c ∷ x) (from_base64-to_base64 s h))
