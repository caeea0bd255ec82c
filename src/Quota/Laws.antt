-- ===== src/Quota/Laws.antt =====
-- What quota.service.ts enforces and counts.
use basket_shared.Prelude.{
  ℕ, ◌+◌, ◌≤◌, ◌≡◌, ◌≢◌, ◌⊎◌, List, [], ◌∷◌, ◌↔◌, arith, Text, text_eq_iff, text_eq_refl,
}
use basket_shared.World.Entities.{TenantUsage}
use basket_shared.World.State.{World, fine, ticked}
use basket_shared.World.Monad.{ok, Async, ◌>>◌}
use basket_shared.Quota.{
  Quota, Usage, QuotaConfig, get_quota, usage_in, check_quota, assert_within_quota, upsert_usage,
  record_usage,
}

-- The check, and the recording right after it.
check_and_record : QuotaConfig → Text → ℕ → Async (Unit {0})
check_and_record c tenant bytes = assert_within_quota c tenant bytes >> record_usage tenant bytes

-- The usage leaves room below the quota, where there is one.
abbrev pub Fits : Quota → ℕ → ℕ → Type 0
Fits q objects bytes =
    ((q.max_bytes ≡ 0) ⊎ (bytes ≤ q.max_bytes)) × ((q.max_objects ≡ 0) ⊎ (objects ≤ q.max_objects))

pub usage_in-upsert_self :
    (tenant : Text) (bytes now : ℕ) (rows : List TenantUsage)
    → usage_in (upsert_usage tenant bytes now rows) tenant ≡ record {
      object_count = (usage_in rows tenant).object_count + 1;
      bytes_stored = (usage_in rows tenant).bytes_stored + bytes;
    }
unfolding usage_in upsert_usage
usage_in-upsert_self tenant bytes now [] = ground (arith, text_eq_refl tenant)
usage_in-upsert_self tenant bytes now (u ∷ rows) =
    ground (arith, usage_in-upsert_self tenant bytes now rows)

pub usage_in-upsert_ne :
    (tenant other : Text) (bytes now : ℕ) (rows : List TenantUsage)
    → tenant ≢ other
    → usage_in (upsert_usage tenant bytes now rows) other ≡ usage_in rows other
unfolding usage_in upsert_usage
usage_in-upsert_ne tenant other bytes now [] n = ground (arith, text_eq_iff tenant other)
usage_in-upsert_ne tenant other bytes now (u ∷ rows) n = ground (
  arith,
  usage_in-upsert_ne tenant other bytes now rows n,
  text_eq_iff u.tenant_id tenant,
  text_eq_iff u.tenant_id other,
)

usage-record_self :
    (tenant : Text) (bytes : ℕ) (w : World)
    → w.services.fate w.tick ≡ fine
    → usage_in (record_usage tenant bytes w).1.db.usage tenant ≡ record {
      object_count = (usage_in w.db.usage tenant).object_count + 1;
      bytes_stored = (usage_in w.db.usage tenant).bytes_stored + bytes;
    }
unfolding record_usage
usage-record_self tenant bytes w f =
    rw f (usage_in-upsert_self tenant bytes (w.services.clock w.tick) w.db.usage)

-- Where the database answers, recording a transfer adds one object and its bytes to the usage of its
-- tenant, and nothing to that of any other.
usage-record_usage :
    (tenant other : Text) (bytes : ℕ) (w : World)
    → w.services.fate w.tick ≡ fine
    → tenant ≢ other
    → let rows = (record_usage tenant bytes w).1.db.usage in
      (usage_in rows tenant ≡ record {
        object_count = (usage_in w.db.usage tenant).object_count + 1;
        bytes_stored = (usage_in w.db.usage tenant).bytes_stored + bytes;
      })
      × (usage_in rows other ≡ usage_in w.db.usage other)
unfolding record_usage
usage-record_usage tenant other bytes w f n = rw f (
  usage_in-upsert_self tenant bytes (w.services.clock w.tick) w.db.usage,
  usage_in-upsert_ne tenant other bytes (w.services.clock w.tick) w.db.usage n,
)

-- The check lets a transfer through, and changes nothing, exactly when the usage that the transfer
-- would lead to fits the quota, in bytes and in objects, where 0 stands for no limit.
check_quota_iff :
    (tenant : Text) (q : Quota) (bytes : ℕ) (u : Usage) (w : World)
    → (check_quota tenant q bytes u w ≡ (ok tt, w))
      ↔ Fits q (u.object_count + 1) (u.bytes_stored + bytes)
unfolding check_quota
check_quota_iff tenant q bytes u w = (to, from)
  where
    to :
        check_quota tenant q bytes u w ≡ (ok tt, w)
        → Fits q (u.object_count + 1) (u.bytes_stored + bytes)
    to h = ground arith

    from :
        Fits q (u.object_count + 1) (u.bytes_stored + bytes)
        → check_quota tenant q bytes u w ≡ (ok tt, w)
    from h = ground arith

check_quota-world :
    (tenant : Text) (q : Quota) (bytes : ℕ) (u : Usage) (w : World)
    → (check_quota tenant q bytes u w).0 ≡ ok tt
    → check_quota tenant q bytes u w ≡ (ok tt, w)
unfolding check_quota
check_quota-world tenant q bytes u w h = ground arith

-- If the database answers both calls, the check passes and the transfer is recorded next, the
-- tenant's usage fits its quota.
quota_respected :
    (c : QuotaConfig) (tenant : Text) (bytes : ℕ) (w : World)
    → w.services.fate w.tick ≡ fine
    → w.services.fate (ticked w).tick ≡ fine
    → (assert_within_quota c tenant bytes w).0 ≡ ok tt
    → let u = usage_in (check_and_record c tenant bytes w).1.db.usage tenant in
      Fits (get_quota c tenant) u.object_count u.bytes_stored
unfolding assert_within_quota check_and_record
quota_respected c tenant bytes w f g h =
    let u = usage_in w.db.usage tenant in
    let passed : check_quota tenant (get_quota c tenant) bytes u (ticked w) ≡ (ok tt, ticked w) =
      check_quota-world tenant (get_quota c tenant) bytes u (ticked w) (rw f at h) in
    let fits = (check_quota_iff tenant (get_quota c tenant) bytes u (ticked w)).0 passed in
    rw (f, passed, usage-record_self tenant bytes (ticked w) g) fits
