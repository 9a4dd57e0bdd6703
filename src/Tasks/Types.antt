-- ===== src/Tasks/Types.antt =====
-- The rows and forms of src/modules/tasks/tasks.service.ts, and what an update writes to a row.
use flow_ai.Common.{ℕ, Bool, true, false, Option, some, or_else, or_default, List, if◌then◌else◌}

pub data TaskStatus : Type 0 where
  backlog todo in_progress in_review done cancelled : TaskStatus

pub data TaskPriority : Type 0 where
  low medium high urgent : TaskPriority

pub record Task : Type 0 where
  pub organization_id : ℕ
  pub project_id : ℕ
  pub milestone_id : Option ℕ
  pub parent_task_id : Option ℕ
  pub title : ℕ
  pub description : Option ℕ
  pub status : TaskStatus
  pub priority : TaskPriority
  pub assignee_id : Option ℕ
  pub created_by_id : ℕ
  pub due_date : Option ℕ
  pub start_date : Option ℕ
  pub completed_at : Option ℕ
  pub estimated_hours : Option ℕ
  pub position : ℕ

pub record TaskComment : Type 0 where
  pub task_id : ℕ
  pub user_id : ℕ
  pub content : ℕ

pub record TaskChecklist : Type 0 where
  pub task_id : ℕ
  pub title : ℕ
  pub is_completed : Bool
  pub sort_order : ℕ

-- Any text; the default of addDependency is a constructor.
pub data DependencyKind : Type 0 where
  finish_to_start : DependencyKind
  called : ℕ → DependencyKind

pub record TaskDependency : Type 0 where
  pub dependent_task_id : ℕ
  pub dependency_task_id : ℕ
  pub kind : DependencyKind

pub record CreateTaskDto : Type 0 where
  pub project_id : ℕ
  pub milestone_id : Option ℕ
  pub parent_task_id : Option ℕ
  pub title : ℕ
  pub description : Option ℕ
  pub status : Option TaskStatus
  pub priority : Option TaskPriority
  pub assignee_id : Option ℕ
  pub due_date : Option ℕ
  pub start_date : Option ℕ
  pub estimated_hours : Option ℕ

-- The project of an update is dropped, so it is left out.
pub record UpdateTaskDto : Type 0 where
  pub milestone_id : Option ℕ
  pub parent_task_id : Option ℕ
  pub title : Option ℕ
  pub description : Option ℕ
  pub status : Option TaskStatus
  pub priority : Option TaskPriority
  pub assignee_id : Option ℕ
  pub due_date : Option ℕ
  pub start_date : Option ℕ
  pub estimated_hours : Option ℕ
  pub position : Option ℕ

pub record BulkUpdateTasksDto : Type 0 where
  pub task_ids : List ℕ
  pub status : Option TaskStatus
  pub assignee_id : Option ℕ
  pub priority : Option TaskPriority

abbrev pub finishes : Option TaskStatus → Bool
finishes (some done) = true
finishes _ = false

abbrev pub changed : ℕ → UpdateTaskDto → Task → Task
changed now dto r = record {
  organization_id = r.organization_id;
  project_id = r.project_id;
  milestone_id = or_else dto.milestone_id r.milestone_id;
  parent_task_id = or_else dto.parent_task_id r.parent_task_id;
  title = or_default dto.title r.title;
  description = or_else dto.description r.description;
  status = or_default dto.status r.status;
  priority = or_default dto.priority r.priority;
  assignee_id = or_else dto.assignee_id r.assignee_id;
  created_by_id = r.created_by_id;
  due_date = or_else dto.due_date r.due_date;
  start_date = or_else dto.start_date r.start_date;
  completed_at = if finishes dto.status then some now else r.completed_at;
  estimated_hours = or_else dto.estimated_hours r.estimated_hours;
  position = or_default dto.position r.position;
}

abbrev pub bulk_changed : ℕ → BulkUpdateTasksDto → Task → Task
bulk_changed now dto r = record r {
  status = or_default dto.status r.status;
  assignee_id = or_else dto.assignee_id r.assignee_id;
  priority = or_default dto.priority r.priority;
  completed_at = if finishes dto.status then some now else r.completed_at;
}
