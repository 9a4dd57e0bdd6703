-- ===== src/Tenancy/MembershipCache/View.antt =====
-- What the methods of the membership cache do to the entries, with Redis reachable or not.
use flow_ai.Common.{
  ℕ, ◌≡◌, ◌≢◌, ◌⊎◌, Option, none, some, [], ◌∷◌, arith, Option-cases, inl, inr, if◌then◌else◌, ◌==◌,
}
use flow_ai.Redis.{Redis}
use flow_ai.Tenancy.{CachedMembership, MembershipKey, membership_keys, same_key, same_key_iff}
use flow_ai.Tenancy.MembershipCache.{ttl_seconds, get, set, invalidate, invalidate_org, del_pattern}

module _ (r : Redis membership_keys (Option CachedMembership)) (cache : r.State) where
  -- A hit is an entry of the server.
  pub get-hit :
      (k : MembershipKey) (v : Option CachedMembership)
      → get r cache k ≡ some v
      → r.view cache k ≡ some v
  unfolding get
  get-hit k v e = elim (Option-cases (r.get cache k)) [
    | inl n ↦ ground arith
    | inr (o, g) ↦ ground (arith, r.get-view cache k o g)
  ]

  -- After a write an entry is the written one or an old one.
  pub view-set :
      (k j : MembershipKey) (v w : Option CachedMembership)
      → r.view (set r cache k v) j ≡ some w
      → ((k ≡ j) × (v ≡ w)) ⊎ (r.view cache j ≡ some w)
  unfolding set
  view-set k j v w e = elim (Option-cases (r.set cache k v ttl_seconds)) [
    | inl n ↦ inr (ground arith)
    | inr (cache', s) ↦
        ground (arith, r.view-set cache cache' k v ttl_seconds j s, (same_key_iff k j).0)
  ]

  -- An invalidation that reaches Redis removes the one entry.
  pub view-invalidate :
      (k j : MembershipKey)
      → r.del cache k ≢ none
      → r.view (invalidate r cache k) j ≡ (if same_key k j then none else r.view cache j)
  unfolding invalidate
  view-invalidate k j up = elim (Option-cases (r.del cache k)) [
    | inl n ↦ absurd (up n)
    | inr (cache', d) ↦ rw (d, invalidate) (r.view-del cache cache' k j d)
  ]

  -- The sweep of an organization that reaches Redis leaves none of its entries.
  pub view-invalidate_org :
      (org : ℕ) (j : MembershipKey) (v : Option CachedMembership)
      → del_pattern r cache (λ k. k.org == org) ≢ none
      → r.view (invalidate_org r cache org) j ≡ some v
      → (r.view cache j ≡ some v) × (j.org ≢ org)
  unfolding invalidate_org
  view-invalidate_org org j v up e = elim (Option-cases (r.keys_like cache (λ k. k.org == org))) [
    | inl n ↦ absurd (up (ground arith))
    | inr ([], f) ↦
        let old : r.view cache j ≡ some v = ground arith in
        (
          old,
          λ same. cc (r.keys_like_complete cache (λ k. k.org == org) [] j v f (ground arith) old),
        )
    | inr (k ∷ ks, f) ↦ elim (Option-cases (r.del_all cache (k ∷ ks))) [
      | inl n ↦ absurd (up (ground arith))
      | inr (cache', d) ↦
          let swept = r.view-del_all cache cache' (k ∷ ks) j d in
          let kept : r.view cache' j ≡ some v = ground arith in
          let old : r.view cache j ≡ some v = ground (arith, swept) in
          (
            old,
            λ same. ground (
              arith,
              swept,
              r.keys_like_complete cache (λ k. k.org == org) (k ∷ ks) j v f (ground arith) old,
            ),
          )
    ]
  ]
