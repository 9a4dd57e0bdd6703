-- ===== src/Directives/Tests.antt =====
-- A tick of the worker on two tasks, in the second of which the run throws.
use flow_ai.Common.{
  ℕ, ◌≡◌, refl, Bool, true, false, Option, none, some, List, [], ◌∷◌, ◌==◌, codes, ◌⊎◌,
  if◌then◌else◌,
}
use flow_ai.Database.Rows.{rows}
use flow_ai.Tasks.{TaskStatus, todo, in_progress, medium}
use flow_ai.Directives.{AgentTask, process_agent_tasks, work}
use flow_ai.Directives.Progress.{Moved, is_busy, no_task_left_in_progress}

abbrev task_of : ℕ → TaskStatus → AgentTask
task_of org status = record {
  organization_id = org;
  project_id = 0;
  title = codes "t";
  description = [];
  priority = medium;
  due_date = none;
  assignee_agent_id = some 4;
  origin_is_agent = true;
  created_by_id = 0;
  status = status;
  position = 0;
}

abbrev table : List (Option AgentTask)
table = some (task_of 1 todo) ∷ some (task_of 2 todo) ∷ some (task_of 1 in_progress) ∷ []

-- An agent that leaves its task as it is, and for the task 1 throws.
abbrev agent : ℕ → List (Option AgentTask) → Option Bool × List (Option AgentTask)
agent id s = (if id == 1 then none else some false, s)

abbrev found : List (ℕ × AgentTask)
found = (0, task_of 1 todo) ∷ (1, task_of 2 todo) ∷ []

-- The task 0 is put back, and the task 1 is the one whose run threw.
no_task_left_in_progress_example :
    (is_busy (rows AgentTask) agent table 1 ≡ true)
    ⊎ (((process_agent_tasks (rows AgentTask) agent (λ org. false) (λ a. true) found table).0
          ≡ some 1)
        ⊎ Moved (rows AgentTask) agent (λ org. false) (λ a. true) found table 1)
unfolding process_agent_tasks work
no_task_left_in_progress_example =
    no_task_left_in_progress (rows AgentTask) agent (λ org. false) (λ a. true) found table 1 refl
