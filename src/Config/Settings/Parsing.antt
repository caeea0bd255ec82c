-- ===== src/Config/Settings/Parsing.antt =====
-- What configuration.ts parses as JSON: the routing rules, the tenants' map and the quotas.
use basket_shared.Prelude.{
  ℕ, ◌+◌, ◌*◌, ◌≤◌, ◌≡◌, ap, some, [], length, if◌then◌else◌, Text, is_empty, sym,
}
use basket_shared.Config.Json.{object, no_members, parse_json_in}
use basket_shared.Config.Json.Fuel.{parse_json_in-parse_json}
use basket_shared.Config.Settings.{parse_routing_rules, parse_json_map, rules_of, or_no_members}

-- The reader of JSON comes to its end on every text: with any fuel from three units a character and
-- three more on, the maps and the routing rules are read to the same values.
parse_json_map-parse_json_in :
    (raw : Text) (fuel : ℕ)
    → 3 * length raw + 3 ≤ fuel
    → (parse_json_map (some raw)
        ≡ (if is_empty raw then object no_members else or_no_members (parse_json_in fuel raw)))
      × (parse_routing_rules (some raw)
          ≡ (if is_empty raw then [] else rules_of (parse_json_in fuel raw)))
unfolding parse_json_map parse_routing_rules
parse_json_map-parse_json_in raw fuel h =
    let same = sym (parse_json_in-parse_json raw fuel h) in
    (
      ap (λ x. if is_empty raw then object no_members else or_no_members x) same,
      ap (λ x. if is_empty raw then [] else rules_of x) same,
    )
