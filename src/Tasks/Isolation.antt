-- ===== src/Tasks/Isolation.antt =====
-- The tasks of other organizations.
use flow_ai.Common.{ℕ, refl, Bool, List, [], ◌∷◌, arith, Option-cases, inl, inr}
use flow_ai.Database.{Table}
use flow_ai.Database.Ownership.{
  owned, Isolated, Isolated-refl, Isolated-trans, Isolated-update, Isolated-delete, Isolated-create,
  Isolated-update_many,
}
use flow_ai.Tasks.{
  Task, CreateTaskDto, UpdateTaskDto, BulkUpdateTasksDto, create, find_one, update, delete,
  bulk_update, changed, bulk_changed,
}

pub data Request : Type 0 where
  creates : (user : ℕ) (dto : CreateTaskDto) → Request
  updates : (id : ℕ) (dto : UpdateTaskDto) (now : ℕ) → Request
  deletes : (id : ℕ) → Request
  bulk_updates : (dto : BulkUpdateTasksDto) (now : ℕ) → Request

module _ (tasks : Table Task) (count : tasks.State → (Task → Bool) → ℕ) (org : ℕ) where
  pub step : Request → tasks.State → tasks.State
  step (creates user dto) s = (create tasks count org user dto s).1
  step (updates id dto now) s = (update tasks org id dto now s).1
  step (deletes id) s = (delete tasks org id s).1
  step (bulk_updates dto now) s = (bulk_update tasks org dto now s).1

  pub run : List Request → tasks.State → tasks.State
  run [] s = s
  run (x ∷ xs) s = run xs (step x s)

  abbrev org_of : Task → ℕ
  org_of r = r.organization_id

  step-Isolated : (x : Request) (s : tasks.State) → Isolated tasks org_of org s (step x s)
  unfolding step create update delete find_one bulk_update
  step-Isolated (creates user dto) s = Isolated-create tasks org_of org s _ refl
  step-Isolated (updates id dto now) s =
      elim (Option-cases (tasks.find_first s (owned tasks org_of org id))) [
        | inl e ↦ rw (e, step, update, find_one) (Isolated-refl tasks org_of org s)
        | inr ((i, r), e) ↦
            rw (e, step, update, find_one)
              (Isolated-update tasks org_of org s id i r (changed now dto) e (λ q. refl))
      ]
  step-Isolated (deletes id) s =
      elim (Option-cases (tasks.find_first s (owned tasks org_of org id))) [
        | inl e ↦ rw (e, step, delete, find_one) (Isolated-refl tasks org_of org s)
        | inr ((i, r), e) ↦
            rw (e, step, delete, find_one) (Isolated-delete tasks org_of org s id i r e)
      ]
  step-Isolated (bulk_updates dto now) s =
      Isolated-update_many tasks org_of org s _ (bulk_changed now dto) (λ i q h. ground arith)
        (λ q. refl)

  -- Whatever an organization does to tasks, in bulk or one by one and by whatever ids, the tasks
  -- of every other organization are exactly those that were there before.
  pub tasks-Isolated :
      (xs : List Request) (s : tasks.State)
      → Isolated tasks (λ r. r.organization_id) org s (run xs s)
  unfolding run
  tasks-Isolated [] s = Isolated-refl tasks org_of org s
  tasks-Isolated (x ∷ xs) s =
      Isolated-trans tasks org_of org s (step x s) (run xs (step x s)) (step-Isolated x s)
        (tasks-Isolated xs (step x s))
