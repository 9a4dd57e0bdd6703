-- ===== src/Clients/Isolation.antt =====
-- The clients of other organizations.
use flow_ai.Common.{ℕ, refl, List, [], ◌∷◌, Option-cases, inl, inr}
use flow_ai.Database.{Table}
use flow_ai.Database.Ownership.{
  owned, Isolated, Isolated-refl, Isolated-trans, Isolated-update, Isolated-create,
}
use flow_ai.Clients.{
  Client, CreateClientDto, UpdateClientDto, create, find_one, update, delete, changed, archived,
}

pub data Request : Type 0 where
  creates : (user : ℕ) (dto : CreateClientDto) → Request
  updates : (id : ℕ) (dto : UpdateClientDto) → Request
  deletes : (id : ℕ) → Request

module _ (clients : Table Client) (org : ℕ) where
  pub step : Request → clients.State → clients.State
  step (creates user dto) s = (create clients org user dto s).1
  step (updates id dto) s = (update clients org id dto s).1
  step (deletes id) s = (delete clients org id s).1

  pub run : List Request → clients.State → clients.State
  run [] s = s
  run (x ∷ xs) s = run xs (step x s)

  abbrev org_of : Client → ℕ
  org_of r = r.organization_id

  step-Isolated : (x : Request) (s : clients.State) → Isolated clients org_of org s (step x s)
  unfolding step create update delete find_one
  step-Isolated (creates user dto) s = Isolated-create clients org_of org s _ refl
  step-Isolated (updates id dto) s =
      elim (Option-cases (clients.find_first s (owned clients org_of org id))) [
        | inl e ↦ rw (e, step, update, find_one) (Isolated-refl clients org_of org s)
        | inr ((i, r), e) ↦
            rw (e, step, update, find_one)
              (Isolated-update clients org_of org s id i r (changed dto) e (λ q. refl))
      ]
  step-Isolated (deletes id) s =
      elim (Option-cases (clients.find_first s (owned clients org_of org id))) [
        | inl e ↦ rw (e, step, delete, find_one) (Isolated-refl clients org_of org s)
        | inr ((i, r), e) ↦
            rw (e, step, delete, find_one)
              (Isolated-update clients org_of org s id i r archived e (λ q. refl))
      ]

  -- Whatever an organization does to clients, by whatever ids, the clients of every other
  -- organization are exactly those that were there before.
  pub clients-Isolated :
      (xs : List Request) (s : clients.State)
      → Isolated clients (λ r. r.organization_id) org s (run xs s)
  unfolding run
  clients-Isolated [] s = Isolated-refl clients org_of org s
  clients-Isolated (x ∷ xs) s =
      Isolated-trans clients org_of org s (step x s) (run xs (step x s)) (step-Isolated x s)
        (clients-Isolated xs (step x s))
