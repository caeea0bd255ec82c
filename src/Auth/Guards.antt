-- ===== src/Auth/Guards.antt =====
-- What the two guards let through: webhook-auth.guard.ts and roles.guard.ts.
use basket_shared.Prelude.{
  ◌≡◌, refl, ◌↔◌, ◌⊎◌, inl, inr, Bool, true, false, Option, none, some, List, [], ◌∷◌, any,
  Bool-cases, not_both, Text, is_empty, Some, arith, In,
}
use basket_shared.World.Entities.{AuthUser, Role, admin, role_eq, operator, viewer}
use basket_shared.World.Monad.{ok}
use basket_shared.Auth.{utf8, roles_of, includes_role, can_activate_roles}

-- What a request must carry: a token, in the header or else in the query, that is not empty and
-- whose bytes are those of the secret.
abbrev pub Presents : (secret : Text) → Option Text → Type 0
Presents secret none = ⊥
Presents secret (some t) = (is_empty t ≡ false) × (utf8 t ≡ utf8 secret)

-- Roles

role_eq_iff : (a b : Role) → (role_eq a b ≡ true) ↔ (a ≡ b)
role_eq_iff a b = elim a [
  | admin ↦ elim b [ admin ↦ ground arith | operator ↦ ground arith | viewer ↦ ground arith ]
  | operator ↦ elim b [ admin ↦ ground arith | operator ↦ ground arith | viewer ↦ ground arith ]
  | viewer ↦ elim b [ admin ↦ ground arith | operator ↦ ground arith | viewer ↦ ground arith ]
]

any_iff :
    {A : Type 0} {P : A → Type 0} (p : A → Bool)
    → ((a : A) → (p a ≡ true) ↔ P a)
    → (xs : List A) → (any p xs ≡ true) ↔ Some P xs
any_iff p f [] = (λ q. cc, λ h. absurd (h tt))
any_iff p f (x ∷ xs) = elim (Bool-cases (p x)) [
  | inl e ↦ rw e ((λ q. inl ((f x).0 e)), (λ h. refl))
  | inr e ↦ rw e (
    (λ q. inr ((any_iff p f xs).0 q)),
    (λ h. elim h [ inl k ↦ absurd (not_both e ((f x).1 k)) | inr k ↦ (any_iff p f xs).1 k ]),
  )
]

-- The roles guard lets a request through exactly if the handler asks for no role, or the user has
-- one of the roles that it asks for.
can_activate_roles_iff :
    (required : List Role) (user : Option AuthUser)
    → (can_activate_roles (some required) user ≡ ok true)
      ↔ ((required ≡ []) ⊎ Some (λ r. In r (roles_of user)) required)
unfolding can_activate_roles
can_activate_roles_iff [] user = ((λ q. inl refl), (λ h. refl))
can_activate_roles_iff (r ∷ required) user =
    let roles = roles_of user in
    let asked =
      any_iff (includes_role roles) (λ a. any_iff (role_eq a) (λ b. role_eq_iff a b) roles)
        (r ∷ required) in
    elim (Bool-cases (any (includes_role roles) (r ∷ required))) [
      | inl e ↦ rw e ((λ q. inr (asked.0 e)), (λ h. refl))
      | inr e ↦
          rw e ((λ q. cc), (λ h. elim h [ inl n ↦ cc | inr k ↦ absurd (not_both e (asked.1 k)) ]))
    ]
