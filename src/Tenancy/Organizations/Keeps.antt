-- ===== src/Tenancy/Organizations/Keeps.antt =====
-- The member operations keep the unique index and the agreement of cache and database, as long
-- as Redis takes the invalidation.
use flow_ai.Common.{
  ℕ, ◌≡◌, ◌≢◌, refl, sym, ap, ◌∙◌, false, Option, none, some, arith, Bool-cases, inl, inr, ◌==◌,
}
use flow_ai.Database.{Table}
use flow_ai.Database.Laws.{scoped}
use flow_ai.Redis.{Redis}
use flow_ai.Tenancy.{Role, Member, CachedMembership, MembershipKey, membership_keys, same_key}
use flow_ai.Tenancy.MembershipCache
use flow_ai.Tenancy.MembershipCache.View.{view-invalidate}
use flow_ai.Tenancy.Coherence.{IsUnique, IsCoherent}
use flow_ai.Tenancy.Decisions.{
  active_held, decision-congr, IsUnique-keeps, update-IsUnique, old_or_changed_row,
}
use flow_ai.Tenancy.Organizations.{
  Account, Store, is_owner, is_invited, joined, change_role, discard, take_up,
}

module _ (t : Table Member) (users : Table Account)
    (r : Redis membership_keys (Option CachedMembership)) where
  pub record IsSound (s : Store t users r) : Type 0 where
    pub unique : IsUnique t s.members
    -- Each membership is of a user that exists.
    pub linked :
        (i : ℕ) (m : Member) → t.find s.members i ≡ some m → users.find s.accounts m.user_id ≢ none
    pub coherent : IsCoherent t r s.members s.cache

  -- The key has no membership but the row.
  abbrev pub IsOnly : t.State → ℕ → MembershipKey → Type 0
  IsOnly members id k =
      (j : ℕ) (q : Member)
      → t.find members j ≡ some q
      → q.organization_id ≡ k.org
      → q.user_id ≡ k.user
      → j ≡ id

  -- Redis takes the invalidation of the key.
  abbrev pub Reaches : Store t users r → MembershipKey → Type 0
  Reaches s k = r.del s.cache k ≢ none

  -- Members change so that only the decision on `key` may differ, and `key` is invalidated.
  pub invalidated-IsCoherent :
      (before after : t.State) (cache : r.State) (key : MembershipKey)
      → IsUnique t before
      → IsUnique t after
      → IsCoherent t r before cache
      → r.del cache key ≢ none
      → ((k : MembershipKey)
          → same_key key k ≡ false
          → (i : ℕ) → scoped t after (active_held k) i ≡ scoped t before (active_held k) i)
      → IsCoherent t r after (MembershipCache.invalidate r cache key)
  invalidated-IsCoherent before after cache key u u' c up other k v e =
      elim (Bool-cases (same_key key k)) [
        | inl same ↦ ground (arith, view-invalidate r cache key k up)
        | inr differs ↦
            c k v (ground (arith, view-invalidate r cache key k up))
            ∙ sym (decision-congr t before after k u u' (other k differs))
      ]

  module _ (org id : ℕ) (m : Member) (s : Store t users r) (sound : IsSound s) where
    pub change_role-IsSound :
        (role : Role) (i : ℕ)
        → ((k : MembershipKey) → Reaches s k)
        → t.find s.members id ≡ some m
        → m.organization_id ≡ org
        → IsSound (change_role t users r org id role (some (i, m)) s).1
    unfolding change_role
    change_role-IsSound role i up e h = elim (Bool-cases (is_owner m.role)) [
      | inl own ↦ rw (own, change_role) sound
      | inr other ↦
          let unique' =
            update-IsUnique t s.members id (λ m. record m { role = role }) (λ _. (refl, refl))
              sound.unique in
          rw (other, change_role)
            (record {
              unique = unique';
              linked = λ j q g.
                  let (q', g', c) =
                    old_or_changed_row t s.members id (λ m. record m { role = role }) j q g in
                  ground (arith, sound.linked j q' g');
              coherent =
                  invalidated-IsCoherent s.members _ s.cache
                    (record { org = org; user = m.user_id }) sound.unique unique' sound.coherent
                    (up _)
                    λ k differs j. ground (
                      arith,
                      t.find-update s.members id (λ m. record m { role = role }) j,
                      ap (t.find s.members) {x = id} {y = j},
                    );
            })
    ]

    pub discard-IsSound :
        (i : ℕ)
        → ((k : MembershipKey) → Reaches s k)
        → t.find s.members id ≡ some m
        → m.organization_id ≡ org
        → IsSound (discard t users r org id (some (i, m)) s).1
    unfolding discard
    discard-IsSound i up e h = elim (Bool-cases (is_owner m.role)) [
      | inl own ↦ rw (own, discard) sound
      | inr other ↦
          let unique' =
            IsUnique-keeps t s.members (t.delete_many s.members (λ i _. i == id)) sound.unique
              (λ j q g.
                (q, ground (arith, t.find-delete_many s.members (λ i _. i == id) j), refl, refl)) in
          rw (other, discard)
            (record {
              unique = unique';
              linked = λ j q g.
                  sound.linked j q
                    (ground (arith, t.find-delete_many s.members (λ i _. i == id) j));
              coherent =
                  invalidated-IsCoherent s.members _ s.cache
                    (record { org = org; user = m.user_id }) sound.unique unique' sound.coherent
                    (up _)
                    λ k differs j. ground (
                      arith,
                      t.find-delete_many s.members (λ i _. i == id) j,
                      ap (t.find s.members) {x = id} {y = j},
                    );
            })
    ]

    joined-IsUnique :
        (user now : ℕ)
        → t.find s.members id ≡ some m
        → IsOnly s.members id (record { org = m.organization_id; user = user })
        → IsUnique t (t.update s.members id (joined user now)).1
    joined-IsUnique user now e only k i j a b ei ej hi hj =
        let (a', fi, ca) = old_or_changed_row t s.members id (joined user now) i a ei in
        let (b', fj, cb) = old_or_changed_row t s.members id (joined user now) j b ej in
        ground (
          arith,
          ap (t.find s.members) {x = id} {y = i},
          ap (t.find s.members) {x = id} {y = j},
          sound.unique k i j a' b' fi fj,
          only i a' fi,
          only j b' fj,
        )

    pub take_up-IsSound :
        (user now : ℕ)
        → ((k : MembershipKey) → Reaches s k)
        → t.find s.members id ≡ some m
        → users.find s.accounts user ≢ none
        → IsOnly s.members id (record { org = m.organization_id; user = user })
        → IsSound (take_up t users r user now (some (id, m)) s).1
    unfolding take_up
    take_up-IsSound user now up e exists only = elim (Bool-cases (is_invited m.status)) [
      | inr other ↦ rw (other, take_up) sound
      | inl waits ↦
          let unique' = joined-IsUnique user now e only in
          rw (waits, take_up)
            (record {
              unique = unique';
              linked = λ j q g.
                  let (q', g', c) = old_or_changed_row t s.members id (joined user now) j q g in
                  ground (arith, sound.linked j q' g');
              coherent =
                  invalidated-IsCoherent s.members _ s.cache
                    (record { org = m.organization_id; user = user }) sound.unique unique'
                    sound.coherent (up _)
                    λ k differs j. ground (
                      arith,
                      t.find-update s.members id (joined user now) j,
                      ap (t.find s.members) {x = id} {y = j},
                    );
            })
    ]
