-- ===== src/Tasks.antt =====
-- src/modules/tasks/tasks.service.ts: tasks, their comments, their checklists and dependencies.
mod Types
pub mod Isolation
pub mod Unscoped
pub mod Tests
use flow_ai.Common.{
  ℕ, Bool, true, false, ◌&&◌, not, Option, none, some, or_else, or_default, List, [], ◌∷◌, includes,
  length, ◌==◌, if◌then◌else◌, Result, ok, failed, not_found,
}
use flow_ai.Database.{Table, delete_row}
pub use Types.*

module _ (tasks : Table Task) where
  -- `count` is prisma.count with a where clause.
  pub create :
      (tasks.State → (Task → Bool) → ℕ) → ℕ → ℕ → CreateTaskDto → tasks.State → ℕ × tasks.State
  create count org user dto s = tasks.create s (record {
    organization_id = org;
    project_id = dto.project_id;
    milestone_id = dto.milestone_id;
    parent_task_id = dto.parent_task_id;
    title = dto.title;
    description = dto.description;
    status = or_default dto.status todo;
    priority = or_default dto.priority medium;
    assignee_id = dto.assignee_id;
    created_by_id = user;
    due_date = dto.due_date;
    start_date = dto.start_date;
    completed_at = none;
    estimated_hours = dto.estimated_hours;
    position = count s (λ r. r.project_id == dto.project_id);
  })

  pub find_one : ℕ → ℕ → tasks.State → Result (ℕ × Task)
  find_one org id s = elim (tasks.find_first s (λ i r. i == id && r.organization_id == org)) [
    | none ↦ failed not_found
    | some x ↦ ok x
  ]

  pub update : ℕ → ℕ → UpdateTaskDto → ℕ → tasks.State → Result (Option Task) × tasks.State
  update org id dto now s =
      let (row, s') = tasks.update s id (changed now dto) in
      elim (find_one org id s) [ failed e ↦ (failed e, s) | ok _ ↦ (ok row, s') ]

  pub delete : ℕ → ℕ → tasks.State → Result ℕ × tasks.State
  delete org id s =
      let s' = tasks.delete_many s (λ i _. i == id) in
      elim (find_one org id s) [ failed e ↦ (failed e, s) | ok _ ↦ (ok id, s') ]

  -- The number in the message counts the ids that were asked for.
  pub bulk_update : ℕ → BulkUpdateTasksDto → ℕ → tasks.State → ℕ × tasks.State
  bulk_update org dto now s = (
    length dto.task_ids,
    tasks.update_many s (λ i r. includes i dto.task_ids && r.organization_id == org)
        (bulk_changed now dto),
  )

  module _ (comments : Table TaskComment) where
    pub add_comment : ℕ → ℕ → ℕ → ℕ → tasks.State → comments.State → Result ℕ × comments.State
    add_comment org task_id user content s c =
        let (id, c') =
          comments.create c (record { task_id = task_id; user_id = user; content = content }) in
        elim (find_one org task_id s) [ failed e ↦ (failed e, c) | ok _ ↦ (ok id, c') ]

    pub delete_comment : ℕ → ℕ → ℕ → tasks.State → comments.State → Result ℕ × comments.State
    delete_comment org task_id comment_id s c = elim (find_one org task_id s) [
      | failed e ↦ (failed e, c)
      | ok _ ↦ delete_row comments c comment_id
    ]

  module _ (checklists : Table TaskChecklist) where
    pub add_checklist_item :
        (checklists.State → (TaskChecklist → Bool) → ℕ)
        → ℕ
        → ℕ
        → (title : ℕ) (is_completed : Option Bool) → tasks.State
        → checklists.State
        → Result ℕ × checklists.State
    add_checklist_item count org task_id title is_completed s c =
        let row : TaskChecklist = record {
          task_id = task_id;
          title = title;
          is_completed = or_default is_completed false;
          sort_order = count c (λ r. r.task_id == task_id);
        } in
        let (id, c') = checklists.create c row in
        elim (find_one org task_id s) [ failed e ↦ (failed e, c) | ok _ ↦ (ok id, c') ]

    pub toggle_checklist_item :
        ℕ
        → ℕ
        → ℕ
        → tasks.State
        → checklists.State
        → Result (Option TaskChecklist) × checklists.State
    toggle_checklist_item org task_id item_id s c = elim (find_one org task_id s) [
      | failed e ↦ (failed e, c)
      | ok _ ↦ elim (checklists.find c item_id) [
        | none ↦ (failed not_found, c)
        | some item ↦
            let (row, c') =
              checklists.update c item_id
                (λ r. record r { is_completed = not item.is_completed }) in
            (ok row, c')
      ]
    ]

    pub delete_checklist_item :
        ℕ → ℕ → ℕ → tasks.State → checklists.State → Result ℕ × checklists.State
    delete_checklist_item org task_id item_id s c = elim (find_one org task_id s) [
      | failed e ↦ (failed e, c)
      | ok _ ↦ delete_row checklists c item_id
    ]

  module _ (dependencies : Table TaskDependency) where
    -- An empty type counts as none.
    pub add_dependency :
        ℕ
        → ℕ
        → ℕ
        → Option DependencyKind
        → tasks.State
        → dependencies.State
        → Result ℕ × dependencies.State
    add_dependency org task_id dependency kind s d =
        let (id, d') = dependencies.create d (record {
          dependent_task_id = task_id;
          dependency_task_id = dependency;
          kind = or_default kind finish_to_start;
        }) in
        elim (find_one org task_id s) [ failed e ↦ (failed e, d) | ok _ ↦ (ok id, d') ]

    pub remove_dependency :
        ℕ → ℕ → ℕ → tasks.State → dependencies.State → Result ℕ × dependencies.State
    remove_dependency org task_id dep_id s d = elim (find_one org task_id s) [
      | failed e ↦ (failed e, d)
      | ok _ ↦ delete_row dependencies d dep_id
    ]
