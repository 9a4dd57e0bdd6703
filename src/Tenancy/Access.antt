-- ===== src/Tenancy/Access.antt =====
-- Who gets through TenantGuard, after any history of the organization's members.
pub mod Tests
use flow_ai.Common.{
  ℕ, ◌≡◌, ◌≢◌, refl, sym, ap, ◌∙◌, Bool, true, false, ◌&&◌, Option, none, some, or_else, arith,
  Option-cases, Bool-cases, inl, inr, if◌then◌else◌, ◌==◌, ==_refl, Result, ok, failed,
}
use flow_ai.Database.{Table}
use flow_ai.Database.Laws.{find_first_unique}
use flow_ai.Redis.{Redis}
use flow_ai.Tenancy.{
  Role, Member, User, CachedMembership, MembershipKey, membership_keys, not_a_member, is_active,
}
use flow_ai.Tenancy.MembershipCache
use flow_ai.Tenancy.Guard.{
  Request, Verdict, allowed, forbidden, admit, stored, held_by, membership_of, for_user,
  can_activate,
}
use flow_ai.Tenancy.Coherence.{active_of, IsUnique, IsCoherent, membership_of-active}
use flow_ai.Tenancy.Decisions.{update-IsUnique}
use flow_ai.Tenancy.Organizations.{
  Account, Store, in_org, is_owner, change_role, discard, update_member_role, remove_member,
}
use flow_ai.Tenancy.Organizations.Keeps.{IsSound}
use flow_ai.Tenancy.Organizations.History.{
  AllReach, Reach, Reach-IsSound, Step-IsSound, changes, removes,
}

-- The organization that a request names: header first, then path, then query.
abbrev pub named : Request → Option ℕ
named req = or_else req.header (or_else req.param req.query)

admit-congr :
    (u : User) (org : ℕ) (a b : Option CachedMembership)
    → active_of a ≡ active_of b
    → admit u org a ≡ admit u org b
admit-congr u org none none e = refl
admit-congr u org none (some b) e = ground arith
admit-congr u org (some a) none e = ground arith
admit-congr u org (some a) (some b) e = ground arith

module _ (t : Table Member) (r : Redis membership_keys (Option CachedMembership)) where
  for_user-plain :
      (members : t.State) (cache : r.State) (u : User) (org : ℕ)
      → u.is_super_admin ≡ false
      → (for_user t r members cache u (some org)).0
        ≡ admit u org (membership_of t r members cache (record { org = org; user = u.id })).0
  unfolding for_user
  for_user-plain members cache u org plain = simp plain

  -- With a coherent cache the verdict is the one that the stored membership gives.
  can_activate-stored :
      (members : t.State) (cache : r.State) (req : Request) (u : User) (org : ℕ)
      → req.user ≡ some u
      → u.is_super_admin ≡ false
      → named req ≡ some org
      → IsCoherent t r members cache
      → (can_activate t r members cache req).0
        ≡ admit u org (stored t members (record { org = org; user = u.id }))
  unfolding can_activate
  can_activate-stored members cache req u org who plain what c =
      rw (who, can_activate)
        (rw (what, for_user)
          (for_user-plain members cache u org plain
            ∙ admit-congr u org _ _ (membership_of-active t r members cache _ c)))

module _ (t : Table Member) (members : t.State) (org id user : ℕ) (m : Member) where
  module _ (e : t.find members id ≡ some m) (o : m.organization_id ≡ org) where
    find_first-in_org : t.find_first members (in_org org id) ≡ some (id, m)
    find_first-in_org =
        find_first_unique t members (in_org org id) id m (λ i j a b _ _ h k. ground arith) e
          (ground arith)

    module _ (w : m.user_id ≡ user) (u : IsUnique t members) where
      stored-discarded :
          stored t (t.delete_many members (λ i _. i == id)) (record { org = org; user = user })
          ≡ none
      unfolding stored
      stored-discarded =
          let key : MembershipKey = record { org = org; user = user } in
          let after = t.delete_many members (λ i _. i == id) in
          elim (Option-cases (t.find_first after (held_by key))) [
            | inl n ↦ ground arith
            | inr ((j, q), f) ↦
                let (g, h) = t.find_first-some after (held_by key) j q f in
                let swept = t.find-delete_many members (λ i _. i == id) j in
                absurd (ground (arith, swept, u key id j m q e))
          ]

      stored-changed :
          (role : Role)
          → stored t
              (t.update members id (λ m. record m { role = role })).1
              (record { org = org; user = user })
            ≡ some (record { role = role; membership_id = id; status = m.status })
      unfolding stored
      stored-changed role =
          let f = λ (m : Member). record m { role = role } in
          let row = t.find-update members id f id in
          rw (
            find_first_unique t (t.update members id f).1
              (held_by (record { org = org; user = user })) id (f m)
              (update-IsUnique t members id f (λ _. (refl, refl)) u _) (ground (arith, row))
              (ground arith))

module _ (t : Table Member) (users : Table Account)
    (r : Redis membership_keys (Option CachedMembership)) (s : Store t users r)
    (sound : IsSound t users r s) (req : Request) (u : User) (org : ℕ) (who : req.user ≡ some u)
    (plain : u.is_super_admin ≡ false) (what : named req ≡ some org) where
  -- From a sound store and after any history of the members' operations, of other requests and of entries that run out,
  -- each operation having reached Redis, the guard gives an ordinary user the verdict that the
  -- database gives: allowed with the stored role exactly if the stored membership is active.
  pub verdict_after_history :
      (s' : Store t users r)
      → Reach t users r s s'
      → (can_activate t r s'.members s'.cache req).0
        ≡ admit u org (stored t s'.members (record { org = org; user = u.id }))
  verdict_after_history s' h =
      can_activate-stored t r s'.members s'.cache req u org who plain what
        (Reach-IsSound t users r sound h).coherent

  -- A member, neither the owner nor a super admin, whom the organization removes in a call that
  -- reaches Redis, is refused by the guard at the next request for that organization, provided
  -- that the store was sound before.
  pub removed_is_refused :
      (id : ℕ) (m : Member)
      → AllReach t users r s
      → t.find s.members id ≡ some m
      → m.organization_id ≡ org
      → m.user_id ≡ u.id
      → is_owner m.role ≡ false
      → let s' = (remove_member t users r org id s).1 in
        (can_activate t r s'.members s'.cache req).0 ≡ forbidden not_a_member
  unfolding remove_member
  removed_is_refused id m up e o w other =
      rw
        (can_activate-stored t r _ _ req u org who plain what
          (Step-IsSound t users r (removes org id up refl) sound).coherent)
        (rw (find_first-in_org t s.members org id u.id m e o, remove_member)
          (rw (other, discard)
            (rw (stored-discarded t s.members org id u.id m e o w sound.unique))))

  -- An active member, neither the owner nor a super admin, whose role is changed in a call that
  -- reaches Redis, carries the new role at the next request for that organization, provided that
  -- the store was sound before.
  pub changed_role_applies :
      (id : ℕ) (m : Member) (role : Role)
      → AllReach t users r s
      → t.find s.members id ≡ some m
      → m.organization_id ≡ org
      → m.user_id ≡ u.id
      → is_owner m.role ≡ false
      → is_active m.status ≡ true
      → let s' = (update_member_role t users r org id role s).1 in
        (can_activate t r s'.members s'.cache req).0
        ≡ allowed
            (record u { organization_id = some org; role = some role; membership_id = some id })
  unfolding update_member_role
  changed_role_applies id m role up e o w other live =
      rw
        (can_activate-stored t r _ _ req u org who plain what
          (Step-IsSound t users r (changes org id role up refl) sound).coherent)
        (rw (find_first-in_org t s.members org id u.id m e o, update_member_role)
          (rw (other, change_role)
            (rw (stored-changed t s.members org id u.id m e o w sound.unique role) (rw live))))
