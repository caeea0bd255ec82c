-- ===== src/Config/Json/Lexing.antt =====
-- The words of JSON.parse: white space, strings with their escapes, and numbers.
use basket_shared.Prelude.{
  ℕ, suc, zero, ◌+◌, ◌-◌, ◌*◌, Bool, true, false, ◌&&◌, ◌||◌, Option, none, some, [], ◌∷◌, leb, ltb,
  ◌==◌, if◌then◌else◌, Text, is_empty,
}

abbrev is_json_space : ℕ → Bool
is_json_space c = c == 32 || c == 9 || c == 10 || c == 13

unfoldable pub skip_spaces : Text → Text
skip_spaces [] = []
skip_spaces (c ∷ s) = let rest = skip_spaces s in if is_json_space c then rest else c ∷ s

abbrev hex_value : ℕ → ℕ
hex_value c =
    if leb b'0' c && leb c b'9'
    then c - b'0'
    else if leb b'a' c && leb c b'f'
    then c - b'a' + 10
    else if leb b'A' c && leb c b'F'
    then c - b'A' + 10
    else 16

abbrev is_hex : ℕ → Bool
is_hex c = ltb (hex_value c) 16

-- Four hexadecimal digits.
abbrev pub hex4 : Text → Option (ℕ × Text)
hex4 (a ∷ b ∷ c ∷ d ∷ s) =
    if is_hex a && is_hex b && is_hex c && is_hex d
    then some (((hex_value a * 16 + hex_value b) * 16 + hex_value c) * 16 + hex_value d, s)
    else none
hex4 _ = none

-- The low half of a surrogate pair behind its high half.
abbrev pub low_half : ℕ → Text → Option (ℕ × Text)
low_half high (c ∷ d ∷ s) =
    if c == 92 && d == b'u'
    then elim (hex4 s) [
      | none ↦ none
      | some (low, rest) ↦
          if leb 0xdc00 low && leb low 0xdfff
          then some (0x10000 + (high - 0xd800) * 1024 + (low - 0xdc00), rest)
          else none
    ]
    else none
low_half high _ = none

-- A code unit in hexadecimal. A lone surrogate has no code point, and is refused here.
abbrev pub unicode_escape : Text → Option (ℕ × Text)
unicode_escape s = elim (hex4 s) [
  | none ↦ none
  | some (c, rest) ↦
      if leb 0xd800 c && leb c 0xdbff
      then low_half c rest
      else if leb 0xdc00 c && leb c 0xdfff
      then none
      else some (c, rest)
]

abbrev pub escape : Text → Option (ℕ × Text)
escape [] = none
escape (c ∷ s) =
    if c == 34 || c == 92 || c == b'/'
    then some (c, s)
    else if c == b'b'
    then some (8, s)
    else if c == b'f'
    then some (12, s)
    else if c == b'n'
    then some (10, s)
    else if c == b'r'
    then some (13, s)
    else if c == b't'
    then some (9, s)
    else if c == b'u'
    then unicode_escape s
    else none

abbrev pub consed : ℕ → Option (Text × Text) → Option (Text × Text)
consed c none = none
consed c (some (t, rest)) = some (c ∷ t, rest)

abbrev pub after_escape : (Text → Option (Text × Text)) → Option (ℕ × Text) → Option (Text × Text)
after_escape read none = none
after_escape read (some (d, rest)) = consed d (read rest)

-- The characters of a string up to its closing quote.
unfoldable pub parse_characters : ℕ → Text → Option (Text × Text)
parse_characters zero s = none
parse_characters (suc fuel) [] = none
parse_characters (suc fuel) (c ∷ s) =
    if c == 34
    then some ([], s)
    else if c == 92
    then after_escape (parse_characters fuel) (escape s)
    else elim (ltb c 32) [ true ↦ none | false ↦ consed c (parse_characters fuel s) ]

-- The grammar of numbers: a sign, whole digits with no needless 0, a fraction, an exponent.
unfoldable pub drop_digits : Text → Text
drop_digits [] = []
drop_digits (c ∷ s) = let rest = drop_digits s in if leb b'0' c && leb c b'9' then rest else c ∷ s

abbrev starts_digit : Text → Bool
starts_digit [] = false
starts_digit (c ∷ s) = leb b'0' c && leb c b'9'

abbrev digits_end : Text → Bool
digits_end s = starts_digit s && is_empty (drop_digits s)

abbrev exponent_ends : Text → Bool
exponent_ends [] = true
exponent_ends (c ∷ []) = false
exponent_ends (c ∷ d ∷ s) =
    if c == b'e' || c == b'E'
    then (if d == b'+' || d == b'-' then digits_end s else digits_end (d ∷ s))
    else false

abbrev fraction_ends : Text → Bool
fraction_ends [] = true
fraction_ends (c ∷ s) =
    if c == b'.' then starts_digit s && exponent_ends (drop_digits s) else exponent_ends (c ∷ s)

abbrev whole_ends : Text → Bool
whole_ends [] = false
whole_ends (c ∷ s) =
    if c == b'0' then fraction_ends s else starts_digit (c ∷ s) && fraction_ends (drop_digits s)

abbrev pub is_json_number : Text → Bool
is_json_number [] = false
is_json_number (c ∷ s) = if c == b'-' then whole_ends s else whole_ends (c ∷ s)

-- The characters that numbers are made of, up to the first other one.
unfoldable pub number_run : Text → Text × Text
number_run [] = ([], [])
number_run (c ∷ s) =
    let (run, rest) = number_run s in
    if (leb b'0' c && leb c b'9') || any_of c then (c ∷ run, rest) else ([], c ∷ s)
  where
    any_of : ℕ → Bool
    any_of c = c == b'-' || c == b'+' || c == b'.' || c == b'e' || c == b'E'
