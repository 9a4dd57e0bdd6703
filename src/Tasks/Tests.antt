-- ===== src/Tasks/Tests.antt =====
-- The theorems on tasks at a task of organization 1 and one of organization 2.
use flow_ai.Common.{ℕ, ◌≡◌, refl, true, false, Option, none, some, List, [], ◌∷◌}
use flow_ai.Database.Rows.{rows}
use flow_ai.Database.Ownership.{Isolated}
use flow_ai.Tasks.{
  finish_to_start, Task, TaskComment, TaskChecklist, TaskDependency, BulkUpdateTasksDto, todo, done,
  medium, delete_comment, toggle_checklist_item, delete_checklist_item, remove_dependency,
}
use flow_ai.Tasks.Isolation.{Request, deletes, bulk_updates, run, tasks-Isolated}
use flow_ai.Tasks.Unscoped.{foreign_parts_reached}

abbrev task_of : ℕ → Task
task_of org = record {
  organization_id = org;
  project_id = 0;
  milestone_id = none;
  parent_task_id = none;
  title = 0;
  description = none;
  status = todo;
  priority = medium;
  assignee_id = none;
  created_by_id = 0;
  due_date = none;
  start_date = none;
  completed_at = none;
  estimated_hours = none;
  position = 0;
}

abbrev table : List (Option Task)
table = some (task_of 1) ∷ some (task_of 2) ∷ []

abbrev finish_both : BulkUpdateTasksDto
finish_both = record {
  task_ids = 0 ∷ 1 ∷ [];
  status = some done;
  assignee_id = none;
  priority = none;
}

-- Organization 1 finishes both tasks in bulk and deletes both.
abbrev requests : List Request
requests = bulk_updates finish_both 9 ∷ deletes 1 ∷ deletes 0 ∷ []

tasks-Isolated_example :
    Isolated
      (rows Task)
      (λ r. r.organization_id)
      1
      table
      (run (rows Task) (λ _ _. 0) 1 requests table)
tasks-Isolated_example = tasks-Isolated (rows Task) (λ _ _. 0) 1 requests table

-- A comment, an item and a dependency of the other task.
abbrev item : TaskChecklist
item = record { task_id = 1; title = 0; is_completed = false; sort_order = 0 }

abbrev items : List (Option TaskChecklist)
items = some item ∷ []

abbrev comments : List (Option TaskComment)
comments = some (record { task_id = 1; user_id = 7; content = 8 }) ∷ []

abbrev dependencies : List (Option TaskDependency)
dependencies =
    some (record { dependent_task_id = 1; dependency_task_id = 1; kind = finish_to_start }) ∷ []

foreign_parts_reached_example :
    ((rows TaskComment).find
        (delete_comment (rows Task) (rows TaskComment) 1 0 0 table comments).1
        0
      ≡ none)
    × ((rows TaskChecklist).find
          (delete_checklist_item (rows Task) (rows TaskChecklist) 1 0 0 table items).1
          0
        ≡ none)
    × ((rows TaskDependency).find
          (remove_dependency (rows Task) (rows TaskDependency) 1 0 0 table dependencies).1
          0
        ≡ none)
    × ((rows TaskChecklist).find
          (toggle_checklist_item (rows Task) (rows TaskChecklist) 1 0 0 table items).1
          0
        ≡ some (record item { is_completed = true }))
foreign_parts_reached_example =
    foreign_parts_reached (rows Task) (rows TaskComment) (rows TaskChecklist) (rows TaskDependency)
      1 0 0 table (task_of 1) comments items item dependencies refl refl refl
