-- ===== src/Redis/Entries.antt =====
-- A Redis server that is reachable or not and holds a list of entries: it meets every law of
-- `Redis`.
use flow_ai.Common.{
  ℕ, ◌≡◌, refl, Bool, true, Option, none, some, List, [], ◌∷◌, arith, if◌then◌else◌, ap,
}
use flow_ai.Redis.{Keys, Redis, contained}

pub record Server (K V : Type 0) : Type 0 where
  pub is_up : Bool
  pub entries : List (K × V)

module _ {K V : Type 0} (keys : Keys K) where
  abbrev pub lookup : K → List (K × V) → Option V
  lookup k [] = none
  lookup k ((j, v) ∷ l) = if keys.same j k then some v else lookup k l

  abbrev pub without : K → List (K × V) → List (K × V)
  without k [] = []
  without k ((j, v) ∷ l) = let rest = without k l in if keys.same k j then rest else (j, v) ∷ rest

  pub lookup-without :
      (k j : K) (l : List (K × V))
      → lookup j (without k l) ≡ (if keys.same k j then none else lookup j l)
  lookup-without k j [] = ground arith
  lookup-without k j ((i, v) ∷ l) =
      ground (arith, lookup-without k j l, keys.same_iff k i, keys.same_iff k j, keys.same_iff i j)

  pub get-view :
      (s : Server K V) (k : K) (o : Option V)
      → (if s.is_up then some (lookup k s.entries) else none) ≡ some o
      → o ≡ lookup k s.entries
  get-view s k o e = ground arith

  pub view-set :
      (s t : Server K V) (k : K) (v : V) (ttl : ℕ) (j : K)
      → (if s.is_up then some (record s { entries = (k, v) ∷ without k s.entries }) else none)
        ≡ some t
      → lookup j t.entries ≡ (if keys.same k j then some v else lookup j s.entries)
  view-set s t k v ttl j e = ground (arith, lookup-without k j s.entries)

  pub view-del :
      (s t : Server K V) (k j : K)
      → (if s.is_up then some (record s { entries = without k s.entries }) else none) ≡ some t
      → lookup j t.entries ≡ (if keys.same k j then none else lookup j s.entries)
  view-del s t k j e = ground (arith, lookup-without k j s.entries)

module _ {K V : Type 0} (keys : Keys K) where
  abbrev pub matching_keys : (K → Bool) → List (K × V) → List K
  matching_keys p [] = []
  matching_keys p ((k, v) ∷ l) = let rest = matching_keys p l in if p k then k ∷ rest else rest

  abbrev pub without_all : List K → List (K × V) → List (K × V)
  without_all [] l = l
  without_all (k ∷ ks) l = without keys k (without_all ks l)

  contained-matching_keys :
      (p : K → Bool) (l : List (K × V)) (k : K) (v : V)
      → p k ≡ true
      → lookup keys k l ≡ some v
      → contained keys k (matching_keys p l) ≡ true
  contained-matching_keys p [] k v h e = ground arith
  contained-matching_keys p ((j, w) ∷ l) k v h e = ground (
    arith,
    contained-matching_keys p l k v h,
    keys.same_iff k j,
    keys.same_iff j k,
    ap p {x = j} {y = k},
  )

  pub lookup-without_all :
      (ks : List K) (l : List (K × V)) (j : K)
      → lookup keys j (without_all ks l) ≡ (if contained keys j ks then none else lookup keys j l)
  lookup-without_all [] l j = refl
  lookup-without_all (k ∷ ks) l j =
      ground (arith, lookup-without keys k j (without_all ks l), lookup-without_all ks l j)

  pub keys_like_complete :
      (s : Server K V) (p : K → Bool) (ks : List K) (k : K) (v : V)
      → (if s.is_up then some (matching_keys p s.entries) else none) ≡ some ks
      → p k ≡ true
      → lookup keys k s.entries ≡ some v
      → contained keys k ks ≡ true
  keys_like_complete s p ks k v e h f = ground (arith, contained-matching_keys p s.entries k v h f)

  pub view-del_all :
      (s t : Server K V) (ks : List K) (j : K)
      → (if s.is_up then some (record s { entries = without_all ks s.entries }) else none) ≡ some t
      → lookup keys j t.entries ≡ (if contained keys j ks then none else lookup keys j s.entries)
  view-del_all s t ks j e = ground (arith, lookup-without_all ks s.entries j)

abbrev pub server : {K : Type 0} (keys : Keys K) (V : Type 0) → Redis keys V
server {K} keys V = record {
  State = Server K V;
  view = λ s k. lookup keys k s.entries;
  get = λ s k. if s.is_up then some (lookup keys k s.entries) else none;
  set = λ s k v ttl.
      if s.is_up then some (record s { entries = (k, v) ∷ without keys k s.entries }) else none;
  del = λ s k. if s.is_up then some (record s { entries = without keys k s.entries }) else none;
  keys_like = λ s p. if s.is_up then some (matching_keys keys p s.entries) else none;
  del_all =
      λ s ks. if s.is_up then some (record s { entries = without_all keys ks s.entries }) else none;
  get-view = get-view keys;
  view-set = view-set keys;
  view-del = view-del keys;
  keys_like_complete = keys_like_complete keys;
  view-del_all = view-del_all keys;
}
