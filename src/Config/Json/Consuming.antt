-- ===== src/Config/Json/Consuming.antt =====
-- What the JSON reader leaves of a text, with any fuel: never more than there was.
use basket_shared.Prelude.{
  ℕ, suc, zero, ◌≤◌, Option, none, some, [], ◌∷◌, length, ◌==◌, Text, arith,
}
use basket_shared.Config.Json.Lexing.{skip_spaces, parse_characters}
use basket_shared.Config.Json.Leaving.{
  Leaves, Leaves-none, Leaves-some, Leaves-cases, Leaves-longer, skip_spaces-length,
  parse_characters-Leaves, parse_numeral-Leaves, parse_word-Leaves, parse_key-Leaves,
}
use basket_shared.Config.Json.{
  Json, Items, Members, Reader, parse_key, start_of, read_value, value_of, value_from, string_with,
  array_with, item_then, more_items, items_after, object_with, member_then, more_members,
  members_after, members_from, read_array, read_items, read_object, read_members, parse_value,
  parse_array, parse_items, parse_object, parse_members, Start, opens_object, opens_array,
  opens_string, opens_number, opens_word,
}

-- A reader leaves no more than it is given.
abbrev pub Consumes : {A : Type 0} → Reader A → Type 0
Consumes read = (s : Text) → Leaves (length s) (read s)

value_of-Leaves :
    (f g : Reader Json)
    → Consumes f
    → Consumes g
    → (k : Start) (c : ℕ) (r : Text) → Leaves (suc (length r)) (value_of f g k c r)
unfolding value_of
value_of-Leaves f g kf kg opens_object c r =
    Leaves-longer (length (skip_spaces r)) _ (omega (arith, skip_spaces-length r))
      (kf (skip_spaces r))
value_of-Leaves f g kf kg opens_array c r =
    Leaves-longer (length (skip_spaces r)) _ (omega (arith, skip_spaces-length r))
      (kg (skip_spaces r))
value_of-Leaves f g kf kg opens_string c r =
    quoted (parse_characters (suc (length r)) r) (parse_characters-Leaves (suc (length r)) r)
  where
    quoted :
        (o : Option (Text × Text)) → Leaves (length r) o → Leaves (suc (length r)) (string_with o)
    quoted none l = Leaves-none
    quoted (some (t, rest)) l = Leaves-some _ rest (omega (arith, l.at))
value_of-Leaves f g kf kg opens_number c r = parse_numeral-Leaves (c ∷ r)
value_of-Leaves f g kf kg opens_word c r = parse_word-Leaves (c ∷ r)

read_value-Consumes : (f g : Reader Json) → Consumes f → Consumes g → Consumes (read_value f g)
unfolding read_value
read_value-Consumes f g kf kg s = from (skip_spaces s) (skip_spaces-length s)
  where
    from : (t : Text) → length t ≤ length s → Leaves (length s) (value_from f g t)
    from [] h = Leaves-none
    from (c ∷ r) h = Leaves-longer (suc (length r)) _ h (value_of-Leaves f g kf kg (start_of c) c r)

read_array-Consumes : (f : Reader Items) → Consumes f → Consumes (read_array f)
unfolding read_array
read_array-Consumes f k [] = Leaves-none
read_array-Consumes f k (c ∷ s) =
    Leaves-cases (c == b']') _ _ (Leaves-some _ s (omega arith)) (all (f (c ∷ s)) (k (c ∷ s)))
  where
    all :
        (o : Option (Items × Text))
        → Leaves (suc (length s)) o
        → Leaves (suc (length s)) (array_with o)
    all none l = Leaves-none
    all (some (vs, rest)) l = Leaves-some _ rest l.at

more_items-Leaves :
    (f : Reader Items) (v : Json) → Consumes f → (t : Text) → Leaves (length t) (more_items f v t)
more_items-Leaves f v k [] = Leaves-none
more_items-Leaves f v k (c ∷ r) =
    Leaves-cases (c == b']') _ _ (Leaves-some _ r (omega arith))
      (Leaves-cases (c == b',') _ _ (then (f r) (k r)) Leaves-none)
  where
    then :
        (o : Option (Items × Text)) → Leaves (length r) o → Leaves (suc (length r)) (item_then v o)
    then none l = Leaves-none
    then (some (vs, rest)) l = Leaves-some _ rest (omega (arith, l.at))

read_items-Consumes :
    (value : Reader Json) (f : Reader Items)
    → Consumes value
    → Consumes f
    → Consumes (read_items value f)
unfolding read_items items_after
read_items-Consumes value f kv k s = after (value s) (kv s)
  where
    after : (o : Option (Json × Text)) → Leaves (length s) o → Leaves (length s) (items_after f o)
    after none l = Leaves-none
    after (some (v, rest)) l =
        Leaves-longer (length (skip_spaces rest)) _ (omega (arith, skip_spaces-length rest, l.at))
          (more_items-Leaves f v k (skip_spaces rest))

read_object-Consumes : (f : Reader Members) → Consumes f → Consumes (read_object f)
unfolding read_object
read_object-Consumes f k [] = Leaves-none
read_object-Consumes f k (c ∷ s) =
    Leaves-cases (c == b'}') _ _ (Leaves-some _ s (omega arith)) (all (f (c ∷ s)) (k (c ∷ s)))
  where
    all :
        (o : Option (Members × Text))
        → Leaves (suc (length s)) o
        → Leaves (suc (length s)) (object_with o)
    all none l = Leaves-none
    all (some (ms, rest)) l = Leaves-some _ rest l.at

more_members-Leaves :
    (f : Reader Members) (key : Text) (v : Json)
    → Consumes f
    → (t : Text) → Leaves (length t) (more_members f key v t)
more_members-Leaves f key v k [] = Leaves-none
more_members-Leaves f key v k (c ∷ r) =
    Leaves-cases (c == b'}') _ _ (Leaves-some _ r (omega arith))
      (Leaves-cases (c == b',') _ _ (then (f r) (k r)) Leaves-none)
  where
    then :
        (o : Option (Members × Text))
        → Leaves (length r) o
        → Leaves (suc (length r)) (member_then key v o)
    then none l = Leaves-none
    then (some (ms, rest)) l = Leaves-some _ rest (omega (arith, l.at))

read_members-Consumes :
    (value : Reader Json) (f : Reader Members)
    → Consumes value
    → Consumes f
    → Consumes (read_members value f)
unfolding read_members members_from members_after
read_members-Consumes value f kv k s =
    from (parse_key (skip_spaces s)) (parse_key-Leaves (skip_spaces s))
  where
    after :
        (key : Text) (n : ℕ) (o : Option (Json × Text))
        → Leaves n o
        → n ≤ length s
        → Leaves (length s) (members_after f key o)
    after key n none l h = Leaves-none
    after key n (some (v, rest)) l h =
        Leaves-longer (length (skip_spaces rest)) _
          (omega (arith, skip_spaces-length rest, l.at, h))
          (more_members-Leaves f key v k (skip_spaces rest))

    from :
        (o : Option (Text × Text))
        → Leaves (length (skip_spaces s)) o
        → Leaves (length s) (members_from value f o)
    from none l = Leaves-none
    from (some (key, rest)) l =
        after key (length rest) (value rest) (kv rest) (omega (arith, skip_spaces-length s, l.at))

-- What every reader leaves, with any fuel.
pub record AllConsume (fuel : ℕ) : Type 0 where
  pub values : Consumes (parse_value fuel)
  pub arrays : Consumes (parse_array fuel)
  pub all_items : Consumes (parse_items fuel)
  pub objects : Consumes (parse_object fuel)
  pub all_members : Consumes (parse_members fuel)

pub all_consume : (fuel : ℕ) → AllConsume fuel
unfolding parse_value parse_array parse_items parse_object parse_members
all_consume zero = record {
  values = λ s. Leaves-none;
  arrays = λ s. Leaves-none;
  all_items = λ s. Leaves-none;
  objects = λ s. Leaves-none;
  all_members = λ s. Leaves-none;
}
all_consume (suc fuel) =
    let k = all_consume fuel in
    record {
      values = read_value-Consumes (parse_object fuel) (parse_array fuel) k.objects k.arrays;
      arrays = read_array-Consumes (parse_items fuel) k.all_items;
      all_items = read_items-Consumes (parse_value fuel) (parse_items fuel) k.values k.all_items;
      objects = read_object-Consumes (parse_members fuel) k.all_members;
      all_members =
          read_members-Consumes (parse_value fuel) (parse_members fuel) k.values k.all_members;
    }
