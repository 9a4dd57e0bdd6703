-- ===== src/Tenancy/Guard.antt =====
-- src/common/guards/tenant.guard.ts, and the same lookup in src/gateway/events.gateway.ts.
use flow_ai.Common.{ℕ, Bool, true, false, ◌&&◌, ◌==◌, Option, none, some, or_else, if◌then◌else◌}
use flow_ai.Database.{Table}
use flow_ai.Redis.{Redis}
use flow_ai.Tenancy.{
  Member, CachedMembership, MembershipKey, membership_keys, User, Denial, organization_required,
  not_a_member, is_active,
}
use flow_ai.Tenancy.MembershipCache

-- The three places of a request that may name the organization.
pub record Request : Type 0 where
  pub user : Option User
  pub header : Option ℕ
  pub param : Option ℕ
  pub query : Option ℕ

pub data Verdict : Type 0 where
  refused : Verdict
  forbidden : Denial → Verdict
  allowed : User → Verdict

abbrev pub held_by : MembershipKey → ℕ → Member → Bool
held_by k _ m = m.organization_id == k.org && m.user_id == k.user

abbrev pub to_cached : Option (ℕ × Member) → Option CachedMembership
to_cached none = none
to_cached (some (i, m)) = some (record { role = m.role; membership_id = i; status = m.status })

-- The checks and the assignments that follow the lookup.
abbrev pub admit : User → ℕ → Option CachedMembership → Verdict
admit u org none = forbidden not_a_member
admit u org (some m) =
    if is_active m.status
    then allowed (record u {
      organization_id = some org;
      role = some m.role;
      membership_id = some m.membership_id;
    })
    else forbidden not_a_member

-- What the database says of a membership.
unfoldable pub stored : (t : Table Member) → t.State → MembershipKey → Option CachedMembership
stored t members key = to_cached (t.find_first members (held_by key))

module _ (t : Table Member) (r : Redis membership_keys (Option CachedMembership)) where
  -- The cached membership, or on a miss the stored one, which is then cached.
  unfoldable pub membership_of :
      t.State → r.State → MembershipKey → Option CachedMembership × r.State
  membership_of members cache key = elim (MembershipCache.get r cache key) [
    | some m ↦ (m, cache)
    | none ↦ let m = stored t members key in (m, MembershipCache.set r cache key m)
  ]

  unfoldable pub for_user : t.State → r.State → User → Option ℕ → Verdict × r.State
  for_user members cache u none = (forbidden organization_required, cache)
  for_user members cache u (some org) =
      if u.is_super_admin
      then (allowed (record u { organization_id = some org }), cache)
      else let (m, cache') = membership_of members cache (record { org = org; user = u.id }) in
        (admit u org m, cache')

  unfoldable pub can_activate : t.State → r.State → Request → Verdict × r.State
  unfolding for_user
  can_activate members cache req = elim req.user [
    | none ↦ (refused, cache)
    | some u ↦ for_user members cache u (or_else req.header (or_else req.param req.query))
  ]

  -- EventsGateway.isOrgMember, given the user's isSuperAdmin as the database has it.
  unfoldable pub is_org_member : t.State → r.State → Bool → MembershipKey → Bool × r.State
  is_org_member members cache is_super_admin key =
      if is_super_admin
      then (true, cache)
      else let (m, cache') = membership_of members cache key in
        (elim m [ none ↦ false | some c ↦ is_active c.status ], cache')
