-- ===== src/Tenancy/Coherence.antt =====
-- The membership cache against the database: what it means for the two to agree, and that the
-- lookup of the guard and of the gateway keeps them so and answers what the database says.
use flow_ai.Common.{ℕ, ◌≡◌, refl, Option, none, some, Option-cases, inl, inr, if◌then◌else◌}
use flow_ai.Database.{Table}
use flow_ai.Database.Laws.{AtMostOne}
use flow_ai.Redis.{Redis}
use flow_ai.Tenancy.{Role, Member, CachedMembership, MembershipKey, membership_keys, is_active}
use flow_ai.Tenancy.MembershipCache
use flow_ai.Tenancy.MembershipCache.View.{get-hit, view-set}
use flow_ai.Tenancy.Guard.{stored, held_by, membership_of}

-- The part of a membership that lets a request through.
abbrev pub active_of : Option CachedMembership → Option (Role × ℕ)
active_of none = none
active_of (some m) = if is_active m.status then some (m.role, m.membership_id) else none

-- The index on (organizationId, userId) of the schema.
abbrev pub IsUnique : (t : Table Member) → t.State → Type 0
IsUnique t members = (k : MembershipKey) → AtMostOne t members (held_by k)

module _ (t : Table Member) (r : Redis membership_keys (Option CachedMembership)) where
  -- Each cached entry decides as the stored row does.
  abbrev pub IsCoherent : t.State → r.State → Type 0
  IsCoherent members cache =
      (k : MembershipKey) (v : Option CachedMembership)
      → r.view cache k ≡ some v
      → active_of v ≡ active_of (stored t members k)

  set-IsCoherent :
      (members : t.State) (cache : r.State) (k : MembershipKey)
      → IsCoherent members cache
      → IsCoherent members (MembershipCache.set r cache k (stored t members k))
  set-IsCoherent members cache k c j v e = elim (view-set r cache k j (stored t members k) v e) [
    | inl (same, wrote) ↦ rw (← wrote, same) refl
    | inr old ↦ c j v old
  ]

  -- The lookup answers what the database says, whatever Redis does.
  pub membership_of-active :
      (members : t.State) (cache : r.State) (k : MembershipKey)
      → IsCoherent members cache
      → active_of (membership_of t r members cache k).0 ≡ active_of (stored t members k)
  unfolding membership_of
  membership_of-active members cache k c = elim (Option-cases (MembershipCache.get r cache k)) [
    | inl miss ↦ rw (miss, membership_of)
    | inr (v, hit) ↦ rw (hit, membership_of) (c k v (get-hit r cache k v hit))
  ]

  pub membership_of-IsCoherent :
      (members : t.State) (cache : r.State) (k : MembershipKey)
      → IsCoherent members cache
      → IsCoherent members (membership_of t r members cache k).1
  unfolding membership_of
  membership_of-IsCoherent members cache k c = elim (Option-cases (MembershipCache.get r cache k)) [
    | inl miss ↦ rw (miss, membership_of) (set-IsCoherent members cache k c)
    | inr (v, hit) ↦ rw (hit, membership_of) c
  ]
