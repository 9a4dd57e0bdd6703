-- ===== src/TtlCache/History.antt =====
-- The cache against the history of its calls: it may forget, and it never answers anything but
-- the latest write of the key, within that write's time to live.
use flow_ai.Common.{
  ℕ, ◌+◌, ◌≤◌, ◌≡◌, refl, subst, ◌⊎◌, max, Option, none, some, List, [], ◌∷◌, arith, Option-cases,
  inl, inr, ◌==◌, if◌then◌else◌,
}
use flow_ai.TtlCache.{TtlCache, Entry, new, size, get, set, delete, clear, drop_oldest, live}
use flow_ai.TtlCache.Store.{Entries, lookup, lookup-assign, lookup-without, length-without}
use flow_ai.TtlCache.Laws.{size-set-le}

pub data Call (V : Type 0) : Type 0 where
  sets : ℕ → V → ℕ → Call V
  gets : ℕ → ℕ → Call V
  deletes : ℕ → Call V
  clears : Call V

module _ {V : Type 0} where
  unfoldable pub step : TtlCache V → Call V → TtlCache V
  step c (sets k v now) = set c k v now
  step c (gets k now) = (get c k now).1
  step c (deletes k) = delete c k
  step c clears = clear c

  unfoldable pub run : TtlCache V → List (Call V) → TtlCache V
  run c [] = c
  run c (x ∷ xs) = run (step c x) xs

  -- The write that is in force for a key: its value and the time at which it runs out.
  pub written : ℕ → ℕ → Option (Entry V) → Call V → Option (Entry V)
  written ttl k e (sets j v now) =
      if j == k then some (record { value = v; expires_at = now + ttl }) else e
  written ttl k e (gets j now) = e
  written ttl k e (deletes j) = if j == k then none else e
  written ttl k e clears = none

  pub in_force : ℕ → ℕ → Option (Entry V) → List (Call V) → Option (Entry V)
  in_force ttl k e [] = e
  in_force ttl k e (x ∷ xs) = in_force ttl k (written ttl k e x) xs

  abbrev Forgets : Option (Entry V) → Option (Entry V) → Type 0
  Forgets kept known = (kept ≡ none) ⊎ (kept ≡ known)

  lookup-drop_oldest :
      (k : ℕ) (l : Entries (Entry V)) → Forgets (lookup k (drop_oldest l)) (lookup k l)
  unfolding drop_oldest
  lookup-drop_oldest k [] = inr refl
  lookup-drop_oldest k ((j, e) ∷ l) = ground (arith, lookup-without j k ((j, e) ∷ l))

  step-Forgets :
      (c : TtlCache V) (k : ℕ) (e : Option (Entry V)) (x : Call V)
      → Forgets (lookup k c.store) e
      → Forgets (lookup k (step c x).store) (written c.ttl_ms k e x)
  unfolding step written set get delete clear
  step-Forgets c k e (sets j v now) h =
      let w : Entry V = record { value = v; expires_at = now + c.ttl_ms } in
      ground (
        arith,
        lookup-assign j k w c.store,
        lookup-assign j k w (drop_oldest c.store),
        lookup-drop_oldest k c.store,
      )
  step-Forgets c k e (gets j now) h = ground (arith, lookup-without j k c.store)
  step-Forgets c k e (deletes j) h = ground (arith, lookup-without j k c.store)
  step-Forgets c k e clears h = inl (unfold lookup in refl)

  ttl_ms-step : (c : TtlCache V) (x : Call V) → (step c x).ttl_ms ≡ c.ttl_ms
  unfolding step set get delete clear
  ttl_ms-step c (sets j v now) = refl
  ttl_ms-step c (gets j now) = ground arith
  ttl_ms-step c (deletes j) = refl
  ttl_ms-step c clears = refl

  run-Forgets :
      (c : TtlCache V) (k : ℕ) (e : Option (Entry V)) (xs : List (Call V))
      → Forgets (lookup k c.store) e
      → Forgets (lookup k (run c xs).store) (in_force c.ttl_ms k e xs)
  unfolding run in_force
  run-Forgets c k e [] h = h
  run-Forgets c k e (x ∷ xs) h =
      subst
        (λ ttl.
          Forgets (lookup k (run (step c x) xs).store) (in_force ttl k (written c.ttl_ms k e x) xs))
        (ttl_ms-step c x) (run-Forgets (step c x) k _ xs (step-Forgets c k e x h))

  hit :
      (c : TtlCache V) (key now : ℕ) (v : V)
      → (get c key now).0 ≡ some v
      → (e : Entry V) × (lookup key c.store ≡ some e) × (e.value ≡ v) × (now ≤ e.expires_at)
  unfolding get
  hit c key now v h = elim (Option-cases (lookup key c.store)) [
    | inl n ↦ absurd (ground arith)
    | inr (e, f) ↦ (e, f, ground arith, ground arith)
  ]

  -- After any calls on a new cache, a lookup that returns a value returns that of the latest
  -- write of the key since its deletion, and not later than the write's time to live.
  pub get_is_latest :
      (ttl limit : ℕ) (xs : List (Call V)) (key now : ℕ) (v : V)
      → (get (run (new ttl limit) xs) key now).0 ≡ some v
      → (e : Entry V) × (in_force ttl key none xs ≡ some e) × (e.value ≡ v) × (now ≤ e.expires_at)
  get_is_latest ttl limit xs key now v h =
      let (e, f, same, live) = hit (run (new ttl limit) xs) key now v h in
      let kept = run-Forgets (new ttl limit) key none xs (inl (unfold new lookup in refl)) in
      (e, unfold new in ground (arith, kept), same, live)

  step-size :
      (limit : ℕ) (c : TtlCache V) (x : Call V)
      → c.max_entries ≡ limit
      → size c ≤ max 1 limit
      → ((step c x).max_entries ≡ limit) × (size (step c x) ≤ max 1 limit)
  unfolding step
  step-size limit c (sets k v now) e h = (unfold set in e, ground (arith, size-set-le c k v now))
  step-size limit c (gets k now) e h = unfold get in ground (arith, length-without k c.store)
  step-size limit c (deletes k) e h = unfold delete in ground (arith, length-without k c.store)
  step-size limit c clears e h = unfold clear in (e, omega arith)

  run-size :
      (limit : ℕ) (c : TtlCache V) (xs : List (Call V))
      → c.max_entries ≡ limit
      → size c ≤ max 1 limit
      → size (run c xs) ≤ max 1 limit
  unfolding run
  run-size limit c [] e h = h
  run-size limit c (x ∷ xs) e h =
      let (e', h') = step-size limit c x e h in run-size limit (step c x) xs e' h'

  -- Whatever the calls, a new cache never holds more entries than its limit, or one if that is 0.
  pub size-run-le :
      (ttl limit : ℕ) (xs : List (Call V)) → size (run (new ttl limit) xs) ≤ max 1 limit
  unfolding new
  size-run-le ttl limit xs = run-size limit (new ttl limit) xs refl (omega arith)
