-- ===== src/Routing/Tests.antt =====
-- Two rules, the second of which matches.
use basket_shared.Prelude.{◌≡◌, refl, ◌≢◌, ◌↔◌, none, some, true, false, text, text_eq, All, arith}
use basket_shared.World.Entities.{FileTransfer, pending}
use basket_shared.Routing.{RoutingRule, matches, object_key}
use basket_shared.Routing.Laws.{object_key_iff}
use basket_shared.Samples.{row, acme}

abbrev for_bob : RoutingRule
for_bob = record {
  username = some (text "bob");
  extension = none;
  path_prefix = none;
  bucket = none;
  prefix = none;
}

abbrev for_alice : RoutingRule
for_alice = record {
  username = some (text "alice");
  extension = none;
  path_prefix = none;
  bucket = some (text "archive");
  prefix = some (text "in/");
}

abbrev t : FileTransfer
t = row 1 acme pending

matched : (matches for_bob t ≡ false) × (matches for_alice t ≡ true)
unfolding matches text_eq
matched = (refl, refl)

-- The same path with two slashes before it.
abbrev u : FileTransfer
u = record t { id = 2; virtual_path = text "//a.csv" }

no_slash : All (λ c. c ≢ b'/') (text "alice")
no_slash = (
  (λ e. ground (arith, e)),
  (
    (λ e. ground (arith, e)),
    ((λ e. ground (arith, e)), ((λ e. ground (arith, e)), ((λ e. ground (arith, e)), tt))),
  ),
)

object_key_iff_example :
    (object_key (text "in/") t ≡ object_key (text "in/") u)
    ↔ ((text "alice" ≡ text "alice") × (text "a.csv" ≡ text "a.csv"))
object_key_iff_example =
    object_key_iff (text "in/") t u 1 2 (text "a.csv") (text "a.csv") no_slash no_slash refl refl
      (λ e. ground (arith, e)) (λ e. ground (arith, e))
