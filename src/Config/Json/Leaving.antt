-- ===== src/Config/Json/Leaving.antt =====
-- What the words of the JSON reader leave of a text: never more than there was.
use basket_shared.Prelude.{
  ℕ, suc, zero, ◌≤◌, Bool, true, false, Option, none, some, [], ◌∷◌, length, length-drop, drop, ltb,
  ◌==◌, if◌then◌else◌, Text, text, starts_with, arith,
}
use basket_shared.Config.Json.Lexing.{
  skip_spaces, parse_characters, number_run, hex4, low_half, unicode_escape, escape, consed,
  after_escape,
}
use basket_shared.Config.Json.{null, boolean, parse_numeral, parse_word, after_colon, parse_key}

abbrev pub Leaving : {A : Type 0} → ℕ → Option (A × Text) → Type 0
Leaving n none = Unit
Leaving n (some (x, rest)) = length rest ≤ n

-- What is left of a text is no longer than `n`.
pub record Leaves {A : Type 0} (n : ℕ) (r : Option (A × Text)) : Type 0 where
  pub at : Leaving n r

module _ {A : Type 0} {n : ℕ} where
  pub Leaves-none : Leaves {A = A} n none
  Leaves-none = record { at = tt }

  pub Leaves-some : (x : A) (rest : Text) → length rest ≤ n → Leaves n (some (x, rest))
  Leaves-some x rest h = record { at = h }

  pub Leaves-if :
      (b : Bool) (x y : Option (A × Text)) → Leaves n x → Leaves n y → Leaves n (if b then x else y)
  Leaves-if true x y h k = h
  Leaves-if false x y h k = k

  pub Leaves-cases :
      (b : Bool) (x y : Option (A × Text))
      → Leaves n x
      → Leaves n y
      → Leaves n (elim b as (λ _. Option (A × Text)) [ true ↦ x | false ↦ y ])
  Leaves-cases true x y h k = h
  Leaves-cases false x y h k = k

  pub Leaves-longer : (m : ℕ) (r : Option (A × Text)) → m ≤ n → Leaves m r → Leaves n r
  Leaves-longer m none h l = Leaves-none
  Leaves-longer m (some (x, rest)) h l = record { at = omega (arith, h, l.at) }

  -- A reader that goes on with what another one has left.
  Leaves-elim :
      {B : Type 0} (m : ℕ) (o : Option (B × Text)) (f : B → Text → Option (A × Text))
      → Leaves m o
      → ((x : B) (rest : Text) → length rest ≤ m → Leaves n (f x rest))
      → Leaves n (elim o as (λ _. Option (A × Text)) [ none ↦ none | some (x, rest) ↦ f x rest ])
  Leaves-elim m none f l k = Leaves-none
  Leaves-elim m (some (x, rest)) f l k = k x rest l.at

pub skip_spaces-length : (s : Text) → length (skip_spaces s) ≤ length s
unfolding skip_spaces
skip_spaces-length [] = omega arith
skip_spaces-length (c ∷ s) = ground (arith, skip_spaces-length s)

hex4-Leaves : (s : Text) → Leaves (length s) (hex4 s)
hex4-Leaves [] = Leaves-none
hex4-Leaves (a ∷ []) = Leaves-none
hex4-Leaves (a ∷ b ∷ []) = Leaves-none
hex4-Leaves (a ∷ b ∷ c ∷ []) = Leaves-none
hex4-Leaves (a ∷ b ∷ c ∷ d ∷ s) = Leaves-if _ _ _ (Leaves-some _ s (omega arith)) Leaves-none

low_half-Leaves : (high : ℕ) (s : Text) → Leaves (length s) (low_half high s)
low_half-Leaves high [] = Leaves-none
low_half-Leaves high (c ∷ []) = Leaves-none
low_half-Leaves high (c ∷ d ∷ s) =
    Leaves-if _ _ _
      (Leaves-elim (length s) (hex4 s) _ (hex4-Leaves s)
        (λ low rest h. Leaves-if _ _ _ (Leaves-some _ rest (omega (arith, h))) Leaves-none))
      Leaves-none

unicode_escape-Leaves : (s : Text) → Leaves (length s) (unicode_escape s)
unicode_escape-Leaves s = Leaves-elim (length s) (hex4 s) _ (hex4-Leaves s) λ c rest h.
    Leaves-if _ _ _ (Leaves-longer (length rest) _ h (low_half-Leaves c rest))
      (Leaves-if _ _ _ Leaves-none (Leaves-some c rest h))

pub escape-Leaves : (s : Text) → Leaves (length s) (escape s)
escape-Leaves [] = Leaves-none
escape-Leaves (c ∷ s) =
    let here : (d : ℕ) → Leaves (suc (length s)) (some (d, s)) =
      λ d. Leaves-some d s (omega arith) in
    Leaves-if _ _ _ (here c) (
      Leaves-if _ _ _ (here 8) (
        Leaves-if _ _ _ (here 12) (
          Leaves-if _ _ _ (here 10) (
            Leaves-if _ _ _ (here 13) (
              Leaves-if _ _ _ (here 9) (
                Leaves-if _ _ _ (Leaves-longer (length s) _ (omega arith) (unicode_escape-Leaves s))
                  Leaves-none))))))

consed-Leaves : (n c : ℕ) (o : Option (Text × Text)) → Leaves n o → Leaves n (consed c o)
consed-Leaves n c none l = Leaves-none
consed-Leaves n c (some (t, rest)) l = record { at = l.at }

pub parse_characters-Leaves : (fuel : ℕ) (s : Text) → Leaves (length s) (parse_characters fuel s)
unfolding parse_characters
parse_characters-Leaves zero s = Leaves-none
parse_characters-Leaves (suc fuel) [] = Leaves-none
parse_characters-Leaves (suc fuel) (c ∷ s) =
    let n = suc (length s) in
    Leaves-if (c == 34) _ _ (Leaves-some [] s (omega arith)) (
      Leaves-if (c == 92) _ _ (escaped (escape s) (escape-Leaves s) (parse_characters-Leaves fuel))
        (Leaves-cases (ltb c 32) none _ Leaves-none (
          consed-Leaves _ c _
            (Leaves-longer (length s) _ (omega arith) (parse_characters-Leaves fuel s)))))
  where
    escaped :
        (o : Option (ℕ × Text))
        → Leaves (length s) o
        → ((t : Text) → Leaves (length t) (parse_characters fuel t))
        → Leaves (suc (length s)) (after_escape (parse_characters fuel) o)
    escaped none l k = Leaves-none
    escaped (some (d, rest)) l k =
        consed-Leaves (suc (length s)) d (parse_characters fuel rest)
          (Leaves-longer (length rest) _ (omega (arith, l.at)) (k rest))

number_run-length : (s : Text) → length (number_run s).1 ≤ length s
unfolding number_run
number_run-length [] = omega arith
number_run-length (c ∷ s) = ground (arith, number_run-length s)

pub parse_numeral-Leaves : (s : Text) → Leaves (length s) (parse_numeral s)
parse_numeral-Leaves s = Leaves-if _ _ _ (Leaves-some _ _ (number_run-length s)) Leaves-none

dropped : {A : Type 0} (x : A) (k : ℕ) (s : Text) → Leaves (length s) (some (x, drop k s))
dropped x k s = Leaves-some x (drop k s) (omega (arith, length-drop k s))

pub parse_word-Leaves : (s : Text) → Leaves (length s) (parse_word s)
parse_word-Leaves s = Leaves-if (starts_with (text "true") s) _ _ (dropped (boolean true) 4 s) (
    Leaves-if (starts_with (text "false") s) _ _ (dropped (boolean false) 5 s)
      (Leaves-if (starts_with (text "null") s) _ _ (dropped null 4 s) Leaves-none))

after_colon-Leaves : (key s : Text) → Leaves (length s) (after_colon key s)
after_colon-Leaves key [] = Leaves-none
after_colon-Leaves key (c ∷ s) = Leaves-if _ _ _ (Leaves-some key s (omega arith)) Leaves-none

pub parse_key-Leaves : (s : Text) → Leaves (length s) (parse_key s)
parse_key-Leaves [] = Leaves-none
parse_key-Leaves (c ∷ s) =
    Leaves-if _ _ _
      (Leaves-elim (length s) (parse_characters (suc (length s)) s) _
        (parse_characters-Leaves (suc (length s)) s)
        (λ key rest h.
          Leaves-longer (length (skip_spaces rest)) _ (omega (arith, h, skip_spaces-length rest))
            (after_colon-Leaves key (skip_spaces rest))))
      Leaves-none
