-- ===== src/Config/Json/Fuel.antt =====
-- The fuel of the JSON reader: it is enough, so that more of it changes no result.
use basket_shared.Prelude.{
  ℕ, suc, zero, ◌+◌, ◌*◌, ◌≤◌, ◌<◌, ◌≡◌, refl, ap, ◌∙◌, Bool, true, false, Option, none, some, [],
  ◌∷◌, length, ◌==◌, ltb, if◌then◌else◌, Text, arith,
}
use basket_shared.Config.Json.Lexing.{consed, after_escape, escape, skip_spaces, parse_characters}
use basket_shared.Config.Json.Leaving.{Leaves, escape-Leaves, skip_spaces-length, parse_key-Leaves}
use basket_shared.Config.Json.{
  Json, Items, Members, Reader, parse_key, start_of, read_value, value_of, value_from, array_with,
  item_then, more_items, items_after, object_with, member_then, more_members, members_after,
  members_from, read_array, read_items, read_object, read_members, all_read, parse_value,
  parse_array, parse_items, parse_object, parse_members, parse_json_in, parse_json, Start,
  opens_object, opens_array, opens_string, opens_number, opens_word,
}
use basket_shared.Config.Json.Consuming.{Consumes, all_consume}

-- Two readers agree on the texts that are shorter than `n`.
abbrev AgreeBelow : {A : Type 0} → ℕ → Reader A → Reader A → Type 0
AgreeBelow n f g = (s : Text) → length s < n → f s ≡ g s

cases-agree :
    {A : Type 0} (b : Bool) {x x' y y' : A}
    → x ≡ x'
    → y ≡ y'
    → (elim b as (λ _. A) [ true ↦ x | false ↦ y ])
      ≡ (elim b as (λ _. A) [ true ↦ x' | false ↦ y' ])
cases-agree true e f = e
cases-agree false e f = f

if-agree :
    {A : Type 0} (b : Bool) {x x' y y' : A}
    → x ≡ x'
    → y ≡ y'
    → (if b then x else y) ≡ (if b then x' else y')
if-agree true e f = e
if-agree false e f = f

value_of-agree :
    (f f' g g' : Reader Json) (k : Start) (c : ℕ) (r : Text)
    → AgreeBelow (suc (length r)) f f'
    → AgreeBelow (suc (length r)) g g'
    → value_of f g k c r ≡ value_of f' g' k c r
unfolding value_of
value_of-agree f f' g g' opens_object c r hf hg =
    hf (skip_spaces r) (omega (arith, skip_spaces-length r))
value_of-agree f f' g g' opens_array c r hf hg =
    hg (skip_spaces r) (omega (arith, skip_spaces-length r))
value_of-agree f f' g g' opens_string c r hf hg = refl
value_of-agree f f' g g' opens_number c r hf hg = refl
value_of-agree f f' g g' opens_word c r hf hg = refl

read_value-agree :
    (f f' g g' : Reader Json) (s : Text)
    → AgreeBelow (length s) f f'
    → AgreeBelow (length s) g g'
    → read_value f g s ≡ read_value f' g' s
unfolding read_value
read_value-agree f f' g g' s hf hg = from (skip_spaces s) (skip_spaces-length s)
  where
    from : (t : Text) → length t ≤ length s → value_from f g t ≡ value_from f' g' t
    from [] h = refl
    from (c ∷ r) h =
        value_of-agree f f' g g' (start_of c) c r (λ t b. hf t (omega (arith, b, h)))
          (λ t b. hg t (omega (arith, b, h)))

read_array-agree : (f f' : Reader Items) (s : Text) → f s ≡ f' s → read_array f s ≡ read_array f' s
unfolding read_array
read_array-agree f f' [] e = refl
read_array-agree f f' (c ∷ s) e = cases-agree (c == b']') refl (ap array_with e)

read_object-agree :
    (f f' : Reader Members) (s : Text) → f s ≡ f' s → read_object f s ≡ read_object f' s
unfolding read_object
read_object-agree f f' [] e = refl
read_object-agree f f' (c ∷ s) e = cases-agree (c == b'}') refl (ap object_with e)

read_items-agree :
    (value value' : Reader Json) (f f' : Reader Items) (s : Text)
    → value s ≡ value' s
    → Leaves (length s) (value s)
    → AgreeBelow (length s) f f'
    → read_items value f s ≡ read_items value' f' s
unfolding read_items items_after
read_items-agree value value' f f' s e l h = after (value s) l ∙ ap (items_after f') e
  where
    more : (v : Json) (t : Text) → length t ≤ length s → more_items f v t ≡ more_items f' v t
    more v [] b = refl
    more v (c ∷ r) b =
        cases-agree (c == b']') refl
          (cases-agree (c == b',') (ap (item_then v) (h r (omega (arith, b)))) refl)

    after : (o : Option (Json × Text)) → Leaves (length s) o → items_after f o ≡ items_after f' o
    after none k = refl
    after (some (v, rest)) k =
        more v (skip_spaces rest) (omega (arith, skip_spaces-length rest, k.at))

read_members-agree :
    (value value' : Reader Json) (f f' : Reader Members) (s : Text)
    → AgreeBelow (suc (length s)) value value'
    → Consumes value
    → AgreeBelow (length s) f f'
    → read_members value f s ≡ read_members value' f' s
unfolding read_members members_from members_after
read_members-agree value value' f f' s e l h =
    from (parse_key (skip_spaces s)) (parse_key-Leaves (skip_spaces s))
  where
    more :
        (key : Text) (v : Json) (t : Text)
        → length t ≤ length s
        → more_members f key v t ≡ more_members f' key v t
    more key v [] b = refl
    more key v (c ∷ r) b =
        cases-agree (c == b'}') refl
          (cases-agree (c == b',') (ap (member_then key v) (h r (omega (arith, b)))) refl)

    after :
        (key : Text) (n : ℕ) (o : Option (Json × Text))
        → Leaves n o
        → n ≤ length s
        → members_after f key o ≡ members_after f' key o
    after key n none k b = refl
    after key n (some (v, rest)) k b =
        more key v (skip_spaces rest) (omega (arith, skip_spaces-length rest, k.at, b))

    from :
        (o : Option (Text × Text))
        → Leaves (length (skip_spaces s)) o
        → members_from value f o ≡ members_from value' f' o
    from none k = refl
    from (some (key, rest)) k =
        let short : length rest ≤ length s = omega (arith, skip_spaces-length s, k.at) in
        after key (length rest) (value rest) (l rest) short
        ∙ ap (members_after f' key) (e rest (omega (arith, short)))

-- The characters of a string: one unit of fuel more than there are characters is enough.
parse_characters-settled :
    (m n : ℕ) (s : Text) → length s < m → length s < n → parse_characters m s ≡ parse_characters n s
unfolding parse_characters
parse_characters-settled zero n s h k = absurd (omega (arith, h))
parse_characters-settled (suc m) zero s h k = absurd (omega (arith, k))
parse_characters-settled (suc m) (suc n) [] h k = refl
parse_characters-settled (suc m) (suc n) (c ∷ s) h k =
    ap (λ x. if c == 34 then some ([], s) else x)
      (if-agree (c == 92)
        (escaped (escape s) (escape-Leaves s)
          (λ rest l. parse_characters-settled m n rest (omega (arith, h, l)) (omega (arith, k, l))))
        (cases-agree (ltb c 32) refl
          (ap (consed c) (parse_characters-settled m n s (omega (arith, h)) (omega (arith, k))))))
  where
    escaped :
        (o : Option (ℕ × Text))
        → Leaves (length s) o
        → ((rest : Text)
            → length rest ≤ length s
            → parse_characters m rest ≡ parse_characters n rest)
        → after_escape (parse_characters m) o ≡ after_escape (parse_characters n) o
    escaped none l f = refl
    escaped (some (d, rest)) l f = ap (consed d) (f rest l.at)

-- Two amounts of fuel that are both enough for a text give the same.
record Settled (m n : ℕ) : Type 0 where
  values :
      (s : Text) → 3 * length s + 3 ≤ m → 3 * length s + 3 ≤ n → parse_value m s ≡ parse_value n s
  arrays :
      (s : Text) → 3 * length s + 5 ≤ m → 3 * length s + 5 ≤ n → parse_array m s ≡ parse_array n s
  all_items :
      (s : Text) → 3 * length s + 4 ≤ m → 3 * length s + 4 ≤ n → parse_items m s ≡ parse_items n s
  objects :
      (s : Text) → 3 * length s + 5 ≤ m → 3 * length s + 5 ≤ n → parse_object m s ≡ parse_object n s
  all_members :
      (s : Text)
      → 3 * length s + 4 ≤ m
      → 3 * length s + 4 ≤ n
      → parse_members m s ≡ parse_members n s

settled : (m n : ℕ) → Settled m n
unfolding parse_value parse_array parse_items parse_object parse_members
settled zero n = record {
  values = λ s h k. absurd (omega (arith, h));
  arrays = λ s h k. absurd (omega (arith, h));
  all_items = λ s h k. absurd (omega (arith, h));
  objects = λ s h k. absurd (omega (arith, h));
  all_members = λ s h k. absurd (omega (arith, h));
}
settled (suc m) zero = record {
  values = λ s h k. absurd (omega (arith, k));
  arrays = λ s h k. absurd (omega (arith, k));
  all_items = λ s h k. absurd (omega (arith, k));
  objects = λ s h k. absurd (omega (arith, k));
  all_members = λ s h k. absurd (omega (arith, k));
}
settled (suc m) (suc n) =
    let same = settled m n in
    record {
      values = λ s h k.
          read_value-agree (parse_object m) (parse_object n) (parse_array m) (parse_array n) s
            (λ t b. same.objects t (omega (arith, h, b)) (omega (arith, k, b)))
            (λ t b. same.arrays t (omega (arith, h, b)) (omega (arith, k, b)));
      arrays = λ s h k.
          read_array-agree (parse_items m) (parse_items n) s
            (same.all_items s (omega (arith, h)) (omega (arith, k)));
      all_items = λ s h k.
          read_items-agree (parse_value m) (parse_value n) (parse_items m) (parse_items n) s
            (same.values s (omega (arith, h)) (omega (arith, k))) ((all_consume m).values s)
            (λ t b. same.all_items t (omega (arith, h, b)) (omega (arith, k, b)));
      objects = λ s h k.
          read_object-agree (parse_members m) (parse_members n) s
            (same.all_members s (omega (arith, h)) (omega (arith, k)));
      all_members = λ s h k.
          read_members-agree (parse_value m) (parse_value n) (parse_members m) (parse_members n) s
            (λ t b. same.values t (omega (arith, h, b)) (omega (arith, k, b)))
            (all_consume m).values
            (λ t b. same.all_members t (omega (arith, h, b)) (omega (arith, k, b)));
    }

-- The reader comes to the end of every text with its fuel: with any more, it gives the same.
pub parse_json_in-parse_json :
    (s : Text) (fuel : ℕ) → 3 * length s + 3 ≤ fuel → parse_json_in fuel s ≡ parse_json s
unfolding parse_json parse_json_in
parse_json_in-parse_json s fuel h =
    ap all_read ((settled fuel (3 * length s + 3)).values s h (omega arith))
