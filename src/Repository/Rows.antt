-- ===== src/Repository/Rows.antt =====
-- Facts about the statements of Table.antt that the proofs share.
use basket_shared.Prelude.{ℕ, inl, inr, Bool, List, [], ◌∷◌, leb, Bool-cases, All}
use basket_shared.Repository.Table.{insert_ordered, order, oldest_first, newest_first}

module _ {κ} {A : Type 0} (P : A → Type κ) (before : A → A → Bool) where
  All-insert_ordered : (x : A) (ys : List A) → P x → All P ys → All P (insert_ordered before x ys)
  unfolding insert_ordered
  All-insert_ordered x [] p h = (p, tt)
  All-insert_ordered x (y ∷ ys) p (q, h) = elim (Bool-cases (before x y)) [
    | inl e ↦ rw e (p, (q, h))
    | inr e ↦ rw e (q, All-insert_ordered x ys p h)
  ]

  pub All-order : (xs : List A) → All P xs → All P (order before xs)
  unfolding order
  All-order [] h = tt
  All-order (x ∷ xs) (p, h) = All-insert_ordered x (order before xs) p (All-order xs h)

module _ {κ} {A : Type 0} (P : A → Type κ) (column : A → ℕ) where
  pub All-oldest_first : (xs : List A) → All P xs → All P (oldest_first column xs)
  unfolding oldest_first
  All-oldest_first xs h = All-order P (λ a b. leb (column a) (column b)) xs h

  pub All-newest_first : (xs : List A) → All P xs → All P (newest_first column xs)
  unfolding newest_first
  All-newest_first xs h = All-order P (λ a b. leb (column b) (column a)) xs h
