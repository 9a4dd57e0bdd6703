-- ===== src/Tasks/Unscoped.antt =====
-- What the service does not check: that a comment, a checklist item or a dependency is one of the
-- task that is named with it.
use flow_ai.Common.{ℕ, ◌≡◌, not, none, some, arith, ◌==◌, ok}
use flow_ai.Database.{Table}
use flow_ai.Database.Laws.{find_first_by_id, find-delete_row}
use flow_ai.Tasks.{
  Task, TaskComment, TaskChecklist, TaskDependency, find_one, delete_comment, toggle_checklist_item,
  delete_checklist_item, remove_dependency,
}

module _ (tasks : Table Task) (comments : Table TaskComment) (checklists : Table TaskChecklist)
    (dependencies : Table TaskDependency) where
  found :
      (org task_id : ℕ) (s : tasks.State) (task : Task)
      → tasks.find s task_id ≡ some task
      → task.organization_id ≡ org
      → find_one tasks org task_id s ≡ ok (task_id, task)
  unfolding find_one
  found org task_id s task e o =
      ground (arith, find_first_by_id tasks s (λ r. r.organization_id == org) task_id)

  -- With a task of its own, an organization deletes any comment, checklist item or dependency and
  -- ticks off any checklist item, whatever task and organization that belongs to.
  pub foreign_parts_reached :
      (org task_id part : ℕ) (s : tasks.State) (task : Task) (c : comments.State)
      (l : checklists.State) (item : TaskChecklist) (d : dependencies.State)
      → tasks.find s task_id ≡ some task
      → task.organization_id ≡ org
      → checklists.find l part ≡ some item
      → (comments.find (delete_comment tasks comments org task_id part s c).1 part ≡ none)
        × (checklists.find (delete_checklist_item tasks checklists org task_id part s l).1 part
            ≡ none)
        × (dependencies.find (remove_dependency tasks dependencies org task_id part s d).1 part
            ≡ none)
        × (checklists.find (toggle_checklist_item tasks checklists org task_id part s l).1 part
            ≡ some (record item { is_completed = not item.is_completed }))
  unfolding delete_comment delete_checklist_item remove_dependency toggle_checklist_item
  foreign_parts_reached org task_id part s task c l item d e o i =
      let f = found org task_id s task e o in
      let ticked = λ (r : TaskChecklist). record r { is_completed = not item.is_completed } in
      (
        rw (f, delete_comment) (find-delete_row comments c part),
        rw (f, delete_checklist_item) (find-delete_row checklists l part),
        rw (f, remove_dependency) (find-delete_row dependencies d part),
        rw (f, i, toggle_checklist_item)
            (ground (arith, checklists.find-update l part ticked part)),
      )
