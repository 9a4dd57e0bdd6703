-- ===== src/Leads/Isolation.antt =====
-- The leads of other organizations.
use flow_ai.Common.{ℕ, refl, Bool, List, [], ◌∷◌, Option-cases, inl, inr}
use flow_ai.Database.{Table}
use flow_ai.Database.Ownership.{
  owned, Isolated, Isolated-refl, Isolated-trans, Isolated-update, Isolated-delete, Isolated-create,
}
use flow_ai.Leads.{Lead, CreateLeadDto, UpdateLeadDto, create, find_one, update, delete, changed}

pub data Request : Type 0 where
  creates : (user : ℕ) (dto : CreateLeadDto) → Request
  updates : (id : ℕ) (dto : UpdateLeadDto) (now : ℕ) → Request
  deletes : (id : ℕ) → Request

module _ (leads : Table Lead) (is_free_email : ℕ → Bool) (org : ℕ) where
  pub step : Request → leads.State → leads.State
  step (creates user dto) s = (create leads is_free_email org user dto s).1
  step (updates id dto now) s = (update leads org id dto now s).1
  step (deletes id) s = (delete leads org id s).1

  pub run : List Request → leads.State → leads.State
  run [] s = s
  run (x ∷ xs) s = run xs (step x s)

  abbrev org_of : Lead → ℕ
  org_of r = r.organization_id

  step-Isolated : (x : Request) (s : leads.State) → Isolated leads org_of org s (step x s)
  unfolding step create update delete find_one
  step-Isolated (creates user dto) s = Isolated-create leads org_of org s _ refl
  step-Isolated (updates id dto now) s =
      elim (Option-cases (leads.find_first s (owned leads org_of org id))) [
        | inl e ↦ rw (e, step, update, find_one) (Isolated-refl leads org_of org s)
        | inr ((i, r), e) ↦
            rw (e, step, update, find_one)
              (Isolated-update leads org_of org s id i r (changed now dto) e (λ q. refl))
      ]
  step-Isolated (deletes id) s =
      elim (Option-cases (leads.find_first s (owned leads org_of org id))) [
        | inl e ↦ rw (e, step, delete, find_one) (Isolated-refl leads org_of org s)
        | inr ((i, r), e) ↦
            rw (e, step, delete, find_one) (Isolated-delete leads org_of org s id i r e)
      ]

  -- Whatever an organization does to leads, by whatever ids, the leads of every other organization
  -- are exactly those that were there before.
  pub leads-Isolated :
      (xs : List Request) (s : leads.State)
      → Isolated leads (λ r. r.organization_id) org s (run xs s)
  unfolding run
  leads-Isolated [] s = Isolated-refl leads org_of org s
  leads-Isolated (x ∷ xs) s =
      Isolated-trans leads org_of org s (step x s) (run xs (step x s)) (step-Isolated x s)
        (leads-Isolated xs (step x s))
