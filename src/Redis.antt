-- ===== src/Redis.antt =====
-- The Redis client behind src/database/redis.service.ts, a third-party package, as a parameter:
-- every call may throw, here `none`, and a call that throws has changed nothing. `view` is what
-- the server holds now; an entry may vanish at any time, when its time to live runs out.
-- The key templates of the source are injective, so a key is the data that fills its template.
pub mod Entries
use flow_ai.Common.{
  ℕ, suc, ◌≡◌, ◌↔◌, Bool, true, false, ◌||◌, List, [], ◌∷◌, Option, none, some, if◌then◌else◌,
}

pub record Keys (K : Type 0) : Type 0 where
  pub same : K → K → Bool
  pub same_iff : (j k : K) → (same j k ≡ true) ↔ (j ≡ k)

abbrev pub contained : {K : Type 0} → Keys K → K → List K → Bool
contained keys k [] = false
contained keys k (j ∷ l) = keys.same j k || contained keys k l

pub record Redis {K : Type 0} (keys : Keys K) (V : Type 0) : Type 1 where
  pub State : Type 0
  pub view : State → K → Option V
  pub get : State → K → Option (Option V)
  -- SET key value EX ttl
  pub set : State → K → V → ℕ → Option State
  pub del : State → K → Option State
  -- KEYS pattern, and DEL of many keys
  pub keys_like : State → (K → Bool) → Option (List K)
  pub del_all : State → List K → Option State
  pub get-view : (s : State) (k : K) (o : Option V) → get s k ≡ some o → o ≡ view s k
  pub view-set :
      (s t : State) (k : K) (v : V) (ttl : ℕ) (j : K)
      → set s k v ttl ≡ some t
      → view t j ≡ (if keys.same k j then some v else view s j)
  pub view-del :
      (s t : State) (k j : K)
      → del s k ≡ some t
      → view t j ≡ (if keys.same k j then none else view s j)
  pub keys_like_complete :
      (s : State) (p : K → Bool) (l : List K) (k : K) (v : V)
      → keys_like s p ≡ some l
      → p k ≡ true
      → view s k ≡ some v
      → contained keys k l ≡ true
  pub view-del_all :
      (s t : State) (l : List K) (j : K)
      → del_all s l ≡ some t
      → view t j ≡ (if contained keys j l then none else view s j)
