-- ===== src/TtlCache/Store.antt =====
-- JavaScript's `Map` with string keys, as far as the cache uses it: `set` keeps the place of a
-- key that is there, and iteration is in the order of insertion.
use flow_ai.Common.{
  ℕ, ◌+◌, ◌≤◌, ◌≡◌, refl, Option, none, some, List, [], ◌∷◌, ◌++◌, arith, ◌==◌, if◌then◌else◌,
  length,
}

abbrev pub Entries : Type 0 → Type 0
Entries V = List (ℕ × V)

module _ {V : Type 0} where
  unfoldable pub lookup : ℕ → Entries V → Option V
  lookup k [] = none
  lookup k ((j, v) ∷ l) = if j == k then some v else lookup k l

  unfoldable pub assign : ℕ → V → Entries V → Entries V
  assign k v [] = (k, v) ∷ []
  assign k v ((j, w) ∷ l) = if j == k then (j, v) ∷ l else (j, w) ∷ assign k v l

  unfoldable pub without : ℕ → Entries V → Entries V
  without k [] = []
  without k ((j, v) ∷ l) = let rest = without k l in if j == k then rest else (j, v) ∷ rest

  pub lookup-assign :
      (k j : ℕ) (v : V) (l : Entries V)
      → lookup j (assign k v l) ≡ (if k == j then some v else lookup j l)
  unfolding lookup assign
  lookup-assign k j v [] = refl
  lookup-assign k j v ((i, w) ∷ l) = ground (arith, lookup-assign k j v l)

  pub lookup-without :
      (k j : ℕ) (l : Entries V) → lookup j (without k l) ≡ (if k == j then none else lookup j l)
  unfolding lookup without
  lookup-without k j [] = ground arith
  lookup-without k j ((i, w) ∷ l) = ground (arith, lookup-without k j l)

  pub length-assign : (k : ℕ) (v : V) (l : Entries V) → length (assign k v l) ≤ length l + 1
  unfolding assign
  length-assign k v [] = omega arith
  length-assign k v ((i, w) ∷ l) = ground (arith, length-assign k v l)

  pub length-without : (k : ℕ) (l : Entries V) → length (without k l) ≤ length l
  unfolding without
  length-without k [] = omega arith
  length-without k ((i, w) ∷ l) = ground (arith, length-without k l)

  pub assign_new :
      (k : ℕ) (v : V) (l : Entries V) → lookup k l ≡ none → assign k v l ≡ l ++ (k, v) ∷ []
  unfolding lookup assign
  assign_new k v [] h = refl
  assign_new k v ((i, w) ∷ l) h = ground (arith, assign_new k v l)
