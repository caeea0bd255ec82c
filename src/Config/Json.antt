-- ===== src/Config/Json.antt =====
-- `JSON.parse(s)`. Numbers are those of `Number`; where an object names a key twice the later value
-- counts, and `__proto__` is a key like any other. Each call goes on with one unit of fuel less, and
-- there are three calls at most between a character that is read and the next.
pub mod Lexing
pub mod Leaving
pub mod Consuming
pub mod Fuel
use basket_shared.Config.Json.Lexing.{
  skip_spaces, parse_characters, drop_digits, is_json_number, number_run,
}
use basket_shared.Prelude.{
  ℕ, suc, zero, ◌+◌, ◌*◌, Bool, true, false, ◌&&◌, ◌||◌, Option, none, some, [], ◌∷◌, length, drop,
  leb, ◌==◌, if◌then◌else◌, Text, text, starts_with, is_empty,
}
use basket_shared.Config.Number.{JsNumber, number}

mutual
  pub data Json : Type 0 where
    null : Json
    boolean : Bool → Json
    numeral : JsNumber → Json
    string : Text → Json
    array : Items → Json
    object : Members → Json

  pub data Items : Type 0 where
    no_items : Items
    item : Json → Items → Items

  pub data Members : Type 0 where
    no_members : Members
    member : Text → Json → Members → Members

abbrev pub parse_numeral : Text → Option (Json × Text)
parse_numeral s =
    let (run, rest) = number_run s in
    if is_json_number run then some (numeral (number run), rest) else none

abbrev pub parse_word : Text → Option (Json × Text)
parse_word s =
    if starts_with (text "true") s
    then some (boolean true, drop 4 s)
    else if starts_with (text "false") s
    then some (boolean false, drop 5 s)
    else if starts_with (text "null") s
    then some (null, drop 4 s)
    else none

-- A key with its quotes, and the colon behind it.
abbrev pub after_colon : Text → Text → Option (Text × Text)
after_colon key [] = none
after_colon key (c ∷ s) = if c == b':' then some (key, s) else none

abbrev pub parse_key : Text → Option (Text × Text)
parse_key [] = none
parse_key (c ∷ s) =
    if c == 34
    then elim (parse_characters (suc (length s)) s) [
      | none ↦ none
      | some (key, rest) ↦ after_colon key (skip_spaces rest)
    ]
    else none

pub data Start : Type 0 where
  opens_object opens_array opens_string opens_number opens_word : Start

abbrev pub start_of : ℕ → Start
start_of c =
    if c == b'{'
    then opens_object
    else if c == b'['
    then opens_array
    else if c == 34
    then opens_string
    else if c == b'-' || (leb b'0' c && leb c b'9')
    then opens_number
    else opens_word

-- Each reader, over the readers of its parts.
abbrev pub Reader : Type 0 → Type 0
Reader A = Text → Option (A × Text)

abbrev pub string_with : Option (Text × Text) → Option (Json × Text)
string_with none = none
string_with (some (t, rest)) = some (string t, rest)

-- The value that begins with `c`, before `r`.
unfoldable pub value_of : (objects arrays : Reader Json) → Start → ℕ → Reader Json
unfolding skip_spaces parse_characters drop_digits number_run starts_with number
value_of objects arrays opens_object c r = objects (skip_spaces r)
value_of objects arrays opens_array c r = arrays (skip_spaces r)
value_of objects arrays opens_string c r = string_with (parse_characters (suc (length r)) r)
value_of objects arrays opens_number c r = parse_numeral (c ∷ r)
value_of objects arrays opens_word c r = parse_word (c ∷ r)

abbrev pub value_from : (objects arrays : Reader Json) → Reader Json
value_from objects arrays [] = none
value_from objects arrays (c ∷ r) = value_of objects arrays (start_of c) c r

unfoldable pub read_value : (objects arrays : Reader Json) → Reader Json
unfolding skip_spaces value_of
read_value objects arrays s = value_from objects arrays (skip_spaces s)

abbrev pub array_with : Option (Items × Text) → Option (Json × Text)
array_with none = none
array_with (some (vs, rest)) = some (array vs, rest)

unfoldable pub read_array : Reader Items → Reader Json
read_array items [] = none
read_array items (c ∷ s) = elim (c == b']') [
  | true ↦ some (array no_items, s)
  | false ↦ array_with (items (c ∷ s))
]

abbrev pub item_then : Json → Option (Items × Text) → Option (Items × Text)
item_then v none = none
item_then v (some (vs, rest)) = some (item v vs, rest)

-- What follows an item.
abbrev pub more_items : Reader Items → Json → Reader Items
more_items items v [] = none
more_items items v (c ∷ r) = elim (c == b']') [
  | true ↦ some (item v no_items, r)
  | false ↦ elim (c == b',') [ false ↦ none | true ↦ item_then v (items r) ]
]

unfoldable pub items_after : Reader Items → Option (Json × Text) → Option (Items × Text)
unfolding skip_spaces
items_after items none = none
items_after items (some (v, rest)) = more_items items v (skip_spaces rest)

unfoldable pub read_items : Reader Json → Reader Items → Reader Items
unfolding items_after
read_items value items s = items_after items (value s)

abbrev pub object_with : Option (Members × Text) → Option (Json × Text)
object_with none = none
object_with (some (ms, rest)) = some (object ms, rest)

unfoldable pub read_object : Reader Members → Reader Json
read_object members [] = none
read_object members (c ∷ s) = elim (c == b'}') [
  | true ↦ some (object no_members, s)
  | false ↦ object_with (members (c ∷ s))
]

abbrev pub member_then : Text → Json → Option (Members × Text) → Option (Members × Text)
member_then key v none = none
member_then key v (some (ms, rest)) = some (member key v ms, rest)

-- What follows a member.
abbrev pub more_members : Reader Members → Text → Json → Reader Members
more_members members key v [] = none
more_members members key v (c ∷ r) = elim (c == b'}') [
  | true ↦ some (member key v no_members, r)
  | false ↦ elim (c == b',') [ false ↦ none | true ↦ member_then key v (members r) ]
]

unfoldable pub members_after :
    Reader Members → Text → Option (Json × Text) → Option (Members × Text)
unfolding skip_spaces
members_after members key none = none
members_after members key (some (v, rest)) = more_members members key v (skip_spaces rest)

unfoldable pub members_from :
    Reader Json → Reader Members → Option (Text × Text) → Option (Members × Text)
unfolding members_after
members_from value members none = none
members_from value members (some (key, rest)) = members_after members key (value rest)

-- From the quote of a key on.
unfoldable pub read_members : Reader Json → Reader Members → Reader Members
unfolding skip_spaces parse_characters members_from
read_members value members s = members_from value members (parse_key (skip_spaces s))

unfoldable mutual
  unfolding read_value read_array read_items read_object read_members

  pub parse_value : ℕ → Reader Json
  parse_value zero s = none
  parse_value (suc fuel) s = read_value (parse_object fuel) (parse_array fuel) s

  pub parse_array : ℕ → Reader Json
  parse_array zero s = none
  parse_array (suc fuel) s = read_array (parse_items fuel) s

  pub parse_items : ℕ → Reader Items
  parse_items zero s = none
  parse_items (suc fuel) s = read_items (parse_value fuel) (parse_items fuel) s

  pub parse_object : ℕ → Reader Json
  parse_object zero s = none
  parse_object (suc fuel) s = read_object (parse_members fuel) s

  pub parse_members : ℕ → Reader Members
  parse_members zero s = none
  parse_members (suc fuel) s = read_members (parse_value fuel) (parse_members fuel) s

abbrev pub all_read : Option (Json × Text) → Option Json
all_read none = none
all_read (some (v, rest)) = if is_empty (skip_spaces rest) then some v else none

-- With fuel for so many calls.
unfoldable pub parse_json_in : ℕ → Text → Option Json
unfolding parse_value skip_spaces
parse_json_in fuel s = all_read (parse_value fuel s)

-- `none` where `JSON.parse` throws.
unfoldable pub parse_json : Text → Option Json
unfolding parse_json_in
parse_json s = parse_json_in (3 * length s + 3) s

-- `typeof v === 'object'`, for a value that is not null.
abbrev pub is_object : Json → Bool
is_object (array items) = true
is_object (object fields) = true
is_object _ = false
