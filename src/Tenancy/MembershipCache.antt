-- ===== src/Tenancy/MembershipCache.antt =====
-- src/common/cache/tenant-membership.cache.ts: every method falls back when Redis throws.
pub mod View
use flow_ai.Common.{ℕ, Bool, ◌==◌, Option, none, some, or_default, List, is_empty, if◌then◌else◌}
use flow_ai.Redis.{Redis}
use flow_ai.Tenancy.{CachedMembership, MembershipKey, membership_keys}

abbrev pub ttl_seconds : ℕ
ttl_seconds = 300

module _ (r : Redis membership_keys (Option CachedMembership)) where
  -- `none` is a miss, and `some none` a cached "not a member".
  unfoldable pub get : r.State → MembershipKey → Option (Option CachedMembership)
  get cache key = or_default (r.get cache key) none

  unfoldable pub set : r.State → MembershipKey → Option CachedMembership → r.State
  set cache key value = or_default (r.set cache key value ttl_seconds) cache

  unfoldable pub invalidate : r.State → MembershipKey → r.State
  invalidate cache key = or_default (r.del cache key) cache

  -- RedisService.delPattern
  unfoldable pub del_pattern : r.State → (MembershipKey → Bool) → Option r.State
  del_pattern cache p = elim (r.keys_like cache p) [
    | none ↦ none
    | some keys ↦ if is_empty keys then some cache else r.del_all cache keys
  ]

  unfoldable pub invalidate_org : r.State → ℕ → r.State
  unfolding del_pattern
  invalidate_org cache org = or_default (del_pattern cache (λ k. k.org == org)) cache
