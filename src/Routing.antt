-- ===== src/Routing.antt =====
-- nestjs-app/src/ingestion/routing.service.ts: the destination of a transfer by the first rule
-- that matches. `toLowerCase` is modelled on the letters of ASCII.
pub mod Laws
pub mod Tests
use basket_shared.Prelude.{
  Bool, true, ◌&&◌, ◌||◌, Option, none, some, List, [], ◌∷◌, ◌++◌, find, ◌==◌, or_else,
  if◌then◌else◌, Text, text_eq, is_empty, starts_with, lower,
}
use basket_shared.World.Entities.{FileTransfer}
use basket_shared.Paths.{extname}

pub record RoutingRule : Type 0 where
  pub username : Option Text
  pub extension : Option Text
  pub path_prefix : Option Text
  pub bucket : Option Text
  pub prefix : Option Text

pub record RouteTarget : Type 0 where
  pub bucket : Text
  pub key : Text

-- `s.replace(/^\/+/, '')`
unfoldable pub drop_slashes : Text → Text
drop_slashes [] = []
drop_slashes (c ∷ s) = let rest = drop_slashes s in if c == b'/' then rest else c ∷ s

-- `.${ext.toLowerCase().replace(/^\./, '')}`
abbrev drop_dot : Text → Text
drop_dot [] = []
drop_dot (c ∷ s) = if c == b'.' then s else c ∷ s

unfoldable pub dotted : Text → Text
dotted ext = b'.' ∷ drop_dot (lower ext)

-- A criterion that is missing or empty lets every transfer through.
abbrev pub unset_or : Option Text → (Text → Bool) → Bool
unset_or none p = true
unset_or (some s) p = is_empty s || p s

unfoldable pub matches : RoutingRule → FileTransfer → Bool
unfolding dotted
matches r t =
    unset_or r.username (λ u. text_eq u t.username)
    && unset_or r.extension (λ e. text_eq (lower (extname t.filename)) (dotted e))
    && unset_or r.path_prefix (λ p. starts_with p t.virtual_path)

-- `rule?.bucket || this.defaultBucket`
abbrev pub bucket_or : Option Text → Text → Text
bucket_or none d = d
bucket_or (some b) d = if is_empty b then d else b

abbrev pub rule_bucket : Option RoutingRule → Text → Text
rule_bucket none d = d
rule_bucket (some r) d = bucket_or r.bucket d

abbrev pub rule_prefix : Option RoutingRule → Text
rule_prefix none = []
rule_prefix (some r) = or_else r.prefix []

abbrev pub object_key : Text → FileTransfer → Text
object_key prefix t = prefix ++ (t.username ++ b'/' ∷ drop_slashes t.virtual_path)

unfoldable pub resolve : List RoutingRule → Text → FileTransfer → RouteTarget
unfolding matches drop_slashes
resolve rules default_bucket t =
    let rule = find (λ r. matches r t) rules in
    record { bucket = rule_bucket rule default_bucket; key = object_key (rule_prefix rule) t }
