-- ===== src/TtlCache/Laws.antt =====
-- What a lookup sees after a write, and how large the cache grows.
use flow_ai.Common.{
  ℕ, ◌+◌, ◌≤◌, ◌<◌, ◌≡◌, ◌≢◌, max, none, some, [], ◌∷◌, arith, leb, if◌then◌else◌, length,
}
use flow_ai.TtlCache.{TtlCache, Entry, size, get, set, drop_oldest}
use flow_ai.TtlCache.Store.{Entries, without, lookup-assign, length-assign, length-without}

module _ {V : Type 0} where
  pub ttl_ms-get : (c : TtlCache V) (key now : ℕ) → (get c key now).1.ttl_ms ≡ c.ttl_ms
  unfolding get
  ttl_ms-get c key now = ground arith

  -- A lookup after a write of the key returns the value while `later` is within the time to live
  -- of the write, and nothing from then on.
  pub get-set :
      (c : TtlCache V) (key : ℕ) (value : V) (now later : ℕ)
      → (get (set c key value now) key later).0
        ≡ (if leb later (now + c.ttl_ms) then some value else none)
  unfolding get set
  get-set c key value now later =
      let room = if leb c.max_entries (size c) then drop_oldest c.store else c.store in
      ground
        (arith, lookup-assign key key (record { value = value; expires_at = now + c.ttl_ms }) room)

  -- A write of another key leaves a lookup as it was, or has evicted the entry, which happens
  -- only to a full cache.
  pub get-set_ne :
      (c : TtlCache V) (key other : ℕ) (value : V) (now later : ℕ)
      → key ≢ other
      → size c < c.max_entries
      → (get (set c key value now) other later).0 ≡ (get c other later).0
  unfolding get set
  get-set_ne c key other value now later ne room = ground (
    arith,
    lookup-assign key other (record { value = value; expires_at = now + c.ttl_ms }) c.store,
  )

  length-drop_oldest : (l : Entries (Entry V)) → length (drop_oldest l) + 1 ≤ max 1 (length l)
  unfolding drop_oldest without
  length-drop_oldest [] = omega arith
  length-drop_oldest ((k, e) ∷ l) = ground (arith, length-without k l)

  -- The number of entries that a write leaves is at most the limit, but never less than one.
  pub size-set-le :
      (c : TtlCache V) (key : ℕ) (value : V) (now : ℕ)
      → size c ≤ max 1 c.max_entries
      → size (set c key value now) ≤ max 1 c.max_entries
  unfolding set
  size-set-le c key value now h =
      let e : Entry V = record { value = value; expires_at = now + c.ttl_ms } in
      ground (
        arith,
        length-drop_oldest c.store,
        length-assign key e (drop_oldest c.store),
        length-assign key e c.store,
      )
