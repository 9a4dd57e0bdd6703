-- ===== src/Database/Ownership.antt =====
-- Rows that belong to organizations: what an operation of one organization leaves of the others.
use flow_ai.Common.{
  ℕ, ◌≡◌, refl, ◌∙◌, Bool, true, ◌&&◌, not, some, arith, ◌==◌, Option-cases, inl, inr,
}
use flow_ai.Database.{Table, matching}

module _ {Row : Type 0} (t : Table Row) (org_of : Row → ℕ) (org : ℕ) where
  -- The where clause { id, organizationId }.
  abbrev pub owned : ℕ → ℕ → Row → Bool
  owned id i r = i == id && org_of r == org

  abbrev pub is_foreign : Row → Bool
  is_foreign r = not (org_of r == org)

  -- The rows of other organizations are the same, no more and no fewer.
  pub Isolated : t.State → t.State → Type 0
  Isolated s s' = (j : ℕ) → matching is_foreign (t.find s' j) ≡ matching is_foreign (t.find s j)

  pub Isolated-refl : (s : t.State) → Isolated s s
  unfolding Isolated
  Isolated-refl s j = refl

  pub Isolated-trans : (s s' s'' : t.State) → Isolated s s' → Isolated s' s'' → Isolated s s''
  unfolding Isolated
  Isolated-trans s s' s'' h k j = k j ∙ h j

  pub Isolated-update :
      (s : t.State) (id i : ℕ) (r : Row) (f : Row → Row)
      → t.find_first s (owned id) ≡ some (i, r)
      → ((q : Row) → org_of (f q) ≡ org_of q)
      → Isolated s (t.update s id f).1
  unfolding Isolated
  Isolated-update s id i r f e keeps j =
      let (g, k) = t.find_first-some s (owned id) i r e in
      let here : i ≡ id = ground arith in ground (arith, t.find-update s id f j, keeps r)

  pub Isolated-delete :
      (s : t.State) (id i : ℕ) (r : Row)
      → t.find_first s (owned id) ≡ some (i, r)
      → Isolated s (t.delete_many s (λ j _. j == id))
  unfolding Isolated
  Isolated-delete s id i r e j =
      let (g, k) = t.find_first-some s (owned id) i r e in
      let here : i ≡ id = ground arith in ground (arith, t.find-delete_many s (λ j _. j == id) j)

  pub Isolated-create : (s : t.State) (r : Row) → org_of r ≡ org → Isolated s (t.create s r).1
  unfolding Isolated
  Isolated-create s r e j = ground (arith, t.find-create s r j, t.create-fresh s r)

  pub Isolated-update_many :
      (s : t.State) (p : ℕ → Row → Bool) (f : Row → Row)
      → ((i : ℕ) (q : Row) → p i q ≡ true → org_of q ≡ org)
      → ((q : Row) → org_of (f q) ≡ org_of q)
      → Isolated s (t.update_many s p f)
  unfolding Isolated
  Isolated-update_many s p f own keeps j = elim (Option-cases (t.find s j)) [
    | inl n ↦ ground (arith, t.find-update_many s p f j)
    | inr (q, e) ↦ ground (arith, t.find-update_many s p f j, own j q, keeps q)
  ]

  pub Isolated-touch :
      (s : t.State) (i : ℕ) (r : Row) (f : Row → Row)
      → t.find s i ≡ some r
      → (org_of r == org) ≡ true
      → ((q : Row) → org_of (f q) ≡ org_of q)
      → Isolated s (t.update s i f).1
  unfolding Isolated
  Isolated-touch s i r f e own keeps j = ground (arith, t.find-update s i f j, keeps r)
