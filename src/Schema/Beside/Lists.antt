-- ===== src/Schema/Beside/Lists.antt =====
-- Lists beside others whose elements do not pass a test.
use basket_shared.Prelude.{
  Bool, false, not, ◌&&◌, ◌||◌, Bool-cases, not_both, inl, inr, List, [], ◌∷◌, ◌++◌, map, any,
  filter, if◌then◌else◌, ◌≡◌, refl, ap,
}

module _ {A : Type 0} where
  pub any-beside : (p : A → Bool) (xs ys : List A) → any p ys ≡ false → any p (xs ++ ys) ≡ any p xs
  any-beside p [] ys e = e
  any-beside p (x ∷ xs) ys e = ap (λ b. p x || b) (any-beside p xs ys e)

  pub any-false :
      (p : A → Bool) (y : A) (ys : List A)
      → any p (y ∷ ys) ≡ false
      → (p y ≡ false) × (any p ys ≡ false)
  any-false p y ys e = elim (Bool-cases (p y)) [
    | inl h ↦ absurd (not_both (rw h at e) refl)
    | inr h ↦ (h, rw h at e)
  ]

  -- A test that implies one that none passes is passed by none.
  pub any-narrow :
      (p q : A → Bool) (ys : List A) → any p ys ≡ false → any (λ y. p y && q y) ys ≡ false
  any-narrow p q [] e = refl
  any-narrow p q (y ∷ ys) e = let (h, k) = any-false p y ys e in rw h (any-narrow p q ys k)

  pub filter-beside :
      (p : A → Bool) (xs ys : List A)
      → any p ys ≡ false
      → filter (λ x. not (p x)) (xs ++ ys) ≡ filter (λ x. not (p x)) xs ++ ys
  filter-beside p [] [] e = refl
  filter-beside p [] (y ∷ ys) e =
      let (h, k) = any-false p y ys e in rw h (ap (λ zs. y ∷ zs) (filter-beside p [] ys k))
  filter-beside p (x ∷ xs) ys e = elim (Bool-cases (p x)) [
    | inl h ↦ rw h (filter-beside p xs ys e)
    | inr h ↦ rw h (ap (λ zs. x ∷ zs) (filter-beside p xs ys e))
  ]

  pub map-beside :
      (p : A → Bool) (f : A → A) (xs ys : List A)
      → any p ys ≡ false
      → map (λ x. if p x then f x else x) (xs ++ ys) ≡ map (λ x. if p x then f x else x) xs ++ ys
  map-beside p f [] [] e = refl
  map-beside p f [] (y ∷ ys) e =
      let (h, k) = any-false p y ys e in rw h (ap (λ zs. y ∷ zs) (map-beside p f [] ys k))
  map-beside p f (x ∷ xs) ys e = ap (λ zs. (if p x then f x else x) ∷ zs) (map-beside p f xs ys e)
