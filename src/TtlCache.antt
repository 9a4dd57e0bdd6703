-- ===== src/TtlCache.antt =====
-- src/common/utils/ttl-cache.util.ts: the in-memory cache of a server process. The clock is an
-- argument of each call, in milliseconds; a `Map` is the list of its entries in insertion order.
pub mod Store
pub mod Laws
pub mod History
pub mod Tests
use flow_ai.Common.{ℕ, ◌+◌, Option, none, some, List, [], ◌∷◌, ltb, leb, if◌then◌else◌, length}
use Store.{Entries, lookup, assign, without}

pub record Entry (V : Type 0) : Type 0 where
  pub value : V
  pub expires_at : ℕ

pub record TtlCache (V : Type 0) : Type 0 where
  pub ttl_ms : ℕ
  pub max_entries : ℕ
  pub store : Entries (Entry V)

module _ {V : Type 0} where
  unfoldable pub new : ℕ → ℕ → TtlCache V
  new ttl_ms max_entries = record { ttl_ms = ttl_ms; max_entries = max_entries; store = [] }

  abbrev pub size : TtlCache V → ℕ
  size c = length c.store

  -- An entry past its time is dropped by the lookup that meets it.
  live : TtlCache V → ℕ → ℕ → Option (Entry V) → Option V × TtlCache V
  live c key now none = (none, c)
  live c key now (some e) =
      if ltb e.expires_at now
      then (none, record c { store = without key c.store })
      else (some e.value, c)

  unfoldable pub get : TtlCache V → ℕ → ℕ → Option V × TtlCache V
  unfolding live
  get c key now = live c key now (lookup key c.store)

  -- `keys().next()` is the key that was inserted first.
  drop_oldest : Entries (Entry V) → Entries (Entry V)
  drop_oldest [] = []
  drop_oldest ((k, e) ∷ store) = without k ((k, e) ∷ store)

  unfoldable pub set : TtlCache V → ℕ → V → ℕ → TtlCache V
  unfolding drop_oldest
  set c key value now =
      let room = if leb c.max_entries (size c) then drop_oldest c.store else c.store in
      record c { store = assign key (record { value = value; expires_at = now + c.ttl_ms }) room }

  unfoldable pub delete : TtlCache V → ℕ → TtlCache V
  delete c key = record c { store = without key c.store }

  pub clear : TtlCache V → TtlCache V
  clear c = record c { store = [] }
