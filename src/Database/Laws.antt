-- ===== src/Database/Laws.antt =====
-- Consequences of the documented behaviour of a table that the services' proofs share.
use mathlib.Core.Option
use flow_ai.Common.{
  sym, ◌∙◌, ℕ, ◌≡◌, Bool, true, ◌&&◌, Option, some, arith, ◌==◌, Option-cases, inl, inr, none,
  ==_refl,
}
use flow_ai.Database.{Table, delete_row, matching}

module _ {Row : Type 0} (t : Table Row) where
  -- `find` narrowed by a where clause over an id and the row, as a lookup by id.
  abbrev pub scoped : t.State → (ℕ → Row → Bool) → ℕ → Option Row
  scoped s p i = matching (p i) (t.find s i)

  -- At most one row satisfies the clause, as a unique index guarantees.
  abbrev pub AtMostOne : t.State → (ℕ → Row → Bool) → Type 0
  AtMostOne s p =
      (i j : ℕ) (r q : Row)
      → t.find s i ≡ some r
      → t.find s j ≡ some q
      → p i r ≡ true
      → p j q ≡ true
      → i ≡ j

  pub find_first_unique :
      (s : t.State) (p : ℕ → Row → Bool) (i : ℕ) (r : Row)
      → AtMostOne s p
      → t.find s i ≡ some r
      → p i r ≡ true
      → t.find_first s p ≡ some (i, r)
  find_first_unique s p i r u e h = elim (Option-cases (t.find_first s p)) [
    | inl n ↦ ground (arith, t.find_first-none s p i r n e)
    | inr ((j, q), f) ↦
        let (g, k) = t.find_first-some s p j q f in let same : j ≡ i = u j i q r g e k h in cc
  ]

  scoped-hit :
      (s : t.State) (p : ℕ → Row → Bool) (i : ℕ) (r : Row)
      → scoped s p i ≡ some r
      → (t.find s i ≡ some r) × (p i r ≡ true)
  scoped-hit s p i r e = ground arith

  pub AtMostOne-congr :
      (s s' : t.State) (p : ℕ → Row → Bool)
      → AtMostOne s p
      → ((i : ℕ) → scoped s' p i ≡ scoped s p i)
      → AtMostOne s' p
  AtMostOne-congr s s' p u same i j r q ei ej hi hj =
      let (fi, ki) = scoped-hit s p i r (ground (arith, same i)) in
      let (fj, kj) = scoped-hit s p j q (ground (arith, same j)) in u i j r q fi fj ki kj

  -- A lookup reads only the rows that satisfy its clause.
  pub find_first-congr :
      (s s' : t.State) (p : ℕ → Row → Bool)
      → AtMostOne s p
      → ((i : ℕ) → scoped s' p i ≡ scoped s p i)
      → t.find_first s' p ≡ t.find_first s p
  find_first-congr s s' p u same = elim (Option-cases (t.find_first s p)) [
    | inl n ↦ elim (Option-cases (t.find_first s' p)) [
      | inl n' ↦ cc
      | inr ((i, r), f) ↦
          let (g, k) = t.find_first-some s' p i r f in
          let (e, h) = scoped-hit s p i r (ground (arith, same i)) in
          ground (arith, t.find_first-none s p i r n e)
    ]
    | inr ((i, r), f) ↦
        let (g, k) = t.find_first-some s p i r f in
        let (e, h) = scoped-hit s' p i r (ground (arith, same i)) in
        find_first_unique s' p i r (AtMostOne-congr s s' p u same) e h ∙ sym f
  ]

  -- A lookup by id and a test of the row reads the row of that id.
  pub find_first_by_id :
      (s : t.State) (q : Row → Bool) (id : ℕ)
      → t.find_first s (λ i r. i == id && q r)
        ≡ Option.map (λ r. (id, r)) (matching q (t.find s id))
  find_first_by_id s q id = elim (Option-cases (matching q (t.find s id))) [
    | inr (r, m) ↦
        let (e, h) = scoped-hit s (λ _ r. q r) id r m in
        rw m (find_first_unique s _ id r (λ i j a b _ _ x y. ground arith) e (ground arith))
    | inl m ↦ elim (Option-cases (t.find_first s (λ i r. i == id && q r))) [
      | inl n ↦ rw m n
      | inr ((i, r), f) ↦
          let (e, h) = t.find_first-some s (λ i r. i == id && q r) i r f in
          let same : i ≡ id = ground arith in ground arith
    ]
  ]

  pub find-delete_row : (s : t.State) (id : ℕ) → t.find (delete_row t s id).1 id ≡ none
  unfolding delete_row
  find-delete_row s id = elim (Option-cases (t.find s id)) [
    | inl n ↦ rw (n, delete_row) n
    | inr (r, e) ↦
        rw (e, delete_row) (ground (arith, t.find-delete_many s (λ i _. i == id) id, ==_refl id))
  ]
