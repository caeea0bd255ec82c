-- ===== src/Quota.antt =====
-- nestjs-app/src/quota/quota.service.ts: quotas from the configuration, usage from the table
-- `tenant_usage`. Counts are exact here; the code reads them as doubles.
pub mod Laws
pub mod Tests
use basket_shared.Prelude.{
  ℕ, ◌+◌, Bool, ◌&&◌, Option, none, List, [], ◌∷◌, ltb, or_else, if◌then◌else◌, Text, text_eq,
}
use basket_shared.World.Entities.{TenantUsage, storage_quota, object_quota}
use basket_shared.World.Monad.{non_retryable, ok, Async, pure, throw, call, ◌>>=◌}

pub record Quota : Type 0 where
  pub max_bytes : ℕ
  pub max_objects : ℕ

pub record Usage : Type 0 where
  pub object_count : ℕ
  pub bytes_stored : ℕ

-- An entry of `TENANT_QUOTAS`.
pub record TenantQuota : Type 0 where
  pub max_bytes : Option ℕ
  pub max_objects : Option ℕ

pub record QuotaConfig : Type 0 where
  pub default_max_bytes : ℕ
  pub default_max_objects : ℕ
  pub tenants : List (Text × TenantQuota)

abbrev pub tenant_quota : Text → List (Text × TenantQuota) → TenantQuota
tenant_quota tenant [] = record { max_bytes = none; max_objects = none }
tenant_quota tenant ((t, q) ∷ rest) = if text_eq t tenant then q else tenant_quota tenant rest

unfoldable pub get_quota : QuotaConfig → Text → Quota
get_quota c tenant =
    let q = tenant_quota tenant c.tenants in
    record {
      max_bytes = or_else q.max_bytes c.default_max_bytes;
      max_objects = or_else q.max_objects c.default_max_objects;
    }

-- The tenant's row, or zeros.
unfoldable pub usage_in : List TenantUsage → Text → Usage
usage_in [] tenant = record { object_count = 0; bytes_stored = 0 }
usage_in (u ∷ rows) tenant =
    if text_eq u.tenant_id tenant
    then record { object_count = u.object_count; bytes_stored = u.bytes_stored }
    else usage_in rows tenant

unfoldable pub get_usage : Text → Async Usage
unfolding call
get_usage tenant = call (λ n w. (ok (usage_in w.db.usage tenant), w))

-- The two tests of `assertWithinQuota`; a quota of 0 is no limit.
abbrev pub over_bytes : Quota → Usage → ℕ → Bool
over_bytes q u extra = ltb 0 q.max_bytes && ltb q.max_bytes (u.bytes_stored + extra)

abbrev pub over_objects : Quota → Usage → Bool
over_objects q u = ltb 0 q.max_objects && ltb q.max_objects (u.object_count + 1)

unfoldable pub check_quota : Text → Quota → ℕ → Usage → Async (Unit {0})
unfolding pure throw
check_quota tenant q extra u =
    if over_bytes q u extra
    then throw (non_retryable (storage_quota tenant u.bytes_stored extra q.max_bytes))
    else if over_objects q u
    then throw (non_retryable (object_quota tenant u.object_count q.max_objects))
    else pure tt

unfoldable pub assert_within_quota : QuotaConfig → Text → ℕ → Async (Unit {0})
unfolding get_usage check_quota ◌>>=◌
assert_within_quota c tenant extra = do
  u ← get_usage tenant
  check_quota tenant (get_quota c tenant) extra u

-- INSERT ... ON CONFLICT (tenant_id) DO UPDATE
unfoldable pub upsert_usage : Text → ℕ → ℕ → List TenantUsage → List TenantUsage
upsert_usage tenant bytes now [] =
    record { tenant_id = tenant; object_count = 1; bytes_stored = bytes; updated_at = now } ∷ []
upsert_usage tenant bytes now (u ∷ rows) =
    if text_eq u.tenant_id tenant
    then record u {
      object_count = u.object_count + 1;
      bytes_stored = u.bytes_stored + bytes;
      updated_at = now;
    }
      ∷ rows
    else u ∷ upsert_usage tenant bytes now rows

unfoldable pub record_usage : Text → ℕ → Async (Unit {0})
unfolding call upsert_usage
record_usage tenant bytes = call (λ n w. (
  ok tt,
  record w {
    db = record w.db { usage = upsert_usage tenant bytes (w.services.clock n) w.db.usage };
  },
))

unfoldable pub summary : QuotaConfig → Text → Async (Text × Usage × Quota)
unfolding get_usage ◌>>=◌ pure
summary c tenant = do u ← get_usage tenant; pure (tenant, u, get_quota c tenant)
