-- ===== src/Routing/Laws.antt =====
-- Where routing.service.ts sends transfers.
use basket_shared.Prelude.{
  ℕ, zero, suc, ◌≡◌, refl, sym, ap, ◌∙◌, ◌↔◌, ◌≢◌, true, false, some, List, [], ◌∷◌, ◌++◌, arith,
  find, Text, All,
}
use basket_shared.World.Entities.{FileTransfer}
use basket_shared.Routing.{
  RoutingRule, drop_slashes, matches, rule_bucket, rule_prefix, object_key, resolve,
}

-- The first rule that matches decides, and no rule before it matters.
resolve_first :
    (before after : List RoutingRule) (r : RoutingRule) (d : Text) (t : FileTransfer)
    → All (λ q. matches q t ≡ false) before
    → matches r t ≡ true
    → resolve (before ++ r ∷ after) d t
      ≡ record { bucket = rule_bucket (some r) d; key = object_key (rule_prefix (some r)) t }
unfolding resolve
resolve_first before after r d t skipped m = rw (found before skipped) refl
  where
    found :
        (qs : List RoutingRule)
        → All (λ q. matches q t ≡ false) qs
        → find (λ q. matches q t) (qs ++ r ∷ after) ≡ some r
    found [] h = rw m refl
    found (q ∷ qs) (e, h) = rw e (found qs h)

append_cancel : (p s t : Text) → p ++ s ≡ p ++ t → s ≡ t
append_cancel [] s t h = h
append_cancel (c ∷ p) s t h = append_cancel p s t (cc)

-- A name without a slash ends at the first slash.
split_at_slash :
    (u v s t : Text)
    → All (λ c. c ≢ b'/') u
    → All (λ c. c ≢ b'/') v
    → u ++ b'/' ∷ s ≡ v ++ b'/' ∷ t
    → (u ≡ v) × (s ≡ t)
split_at_slash [] [] s t h k e = (refl, cc)
split_at_slash [] (d ∷ v) s t h (n, k) e = absurd (ground arith)
split_at_slash (c ∷ u) [] s t (n, h) k e = absurd (ground arith)
split_at_slash (c ∷ u) (d ∷ v) s t (n, h) (m, k) e =
    let (same, rest) = split_at_slash u v s t h k (cc) in (cc, rest)

-- A text that does not start with a slash.
abbrev pub IsBare : Text → Type 0
IsBare [] = Unit
IsBare (c ∷ s) = c ≢ b'/'

-- A text after some slashes.
abbrev pub after_slashes : ℕ → Text → Text
after_slashes zero s = s
after_slashes (suc n) s = b'/' ∷ after_slashes n s

drop_slashes-after_slashes : (n : ℕ) (s : Text) → IsBare s → drop_slashes (after_slashes n s) ≡ s
unfolding drop_slashes
drop_slashes-after_slashes zero [] h = refl
drop_slashes-after_slashes zero (c ∷ s) h = ground arith
drop_slashes-after_slashes (suc n) s h = drop_slashes-after_slashes n s h

-- Two rows of users with slash-free names, routed under one prefix, have one object key exactly
-- when they are of one user and their virtual paths are one path after their leading slashes.
pub object_key_iff :
    (prefix : Text) (s t : FileTransfer) (m n : ℕ) (p q : Text)
    → All (λ c. c ≢ b'/') s.username
    → All (λ c. c ≢ b'/') t.username
    → s.virtual_path ≡ after_slashes m p
    → t.virtual_path ≡ after_slashes n q
    → IsBare p
    → IsBare q
    → (object_key prefix s ≡ object_key prefix t) ↔ ((s.username ≡ t.username) × (p ≡ q))
object_key_iff prefix s t m n p q h k sp tq bare bare' =
    let left : drop_slashes s.virtual_path ≡ p =
      ap drop_slashes sp ∙ drop_slashes-after_slashes m p bare in
    let right : drop_slashes t.virtual_path ≡ q =
      ap drop_slashes tq ∙ drop_slashes-after_slashes n q bare' in
    (
      (λ e.
          let (user, path) =
            split_at_slash s.username t.username _ _ h k (append_cancel prefix _ _ e) in
          (user, sym left ∙ path ∙ right)),
      (λ e.
          ap (λ u. prefix ++ (u ++ b'/' ∷ drop_slashes s.virtual_path)) e.0
          ∙ ap (λ v. prefix ++ (t.username ++ b'/' ∷ v)) (left ∙ e.1 ∙ sym right)),
    )
