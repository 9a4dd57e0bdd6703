-- ===== src/Projects.antt =====
-- src/modules/projects/projects.service.ts: the projects of an organization and their members. A
-- project is never deleted, only archived. Milestones and statistics are left out.
pub mod Isolation
pub mod Members
pub mod Tests
use flow_ai.Common.{
  ℕ, Bool, ◌&&◌, Option, none, some, or_else, or_default, ◌==◌, Result, ok, failed, not_found,
  conflict,
}
use flow_ai.Database.{Table}

pub data ProjectStatus : Type 0 where
  planning active on_hold completed cancelled archived : ProjectStatus

pub record Project : Type 0 where
  pub organization_id : ℕ
  pub created_by_id : ℕ
  pub name : ℕ
  pub status : ProjectStatus
  pub start_date : Option ℕ
  pub deadline : Option ℕ
  pub completed_at : Option ℕ

-- A role is any text; the two that the code writes are constructors.
pub data MemberRole : Type 0 where
  lead member : MemberRole
  called : ℕ → MemberRole

pub record ProjectMember : Type 0 where
  pub project_id : ℕ
  pub user_id : ℕ
  pub role : MemberRole

pub record CreateProjectDto : Type 0 where
  pub name : ℕ
  pub status : Option ProjectStatus
  pub start_date : Option ℕ
  pub deadline : Option ℕ

pub record UpdateProjectDto : Type 0 where
  pub name : Option ℕ
  pub status : Option ProjectStatus
  pub start_date : Option ℕ
  pub deadline : Option ℕ

abbrev pub completed_by : ℕ → Option ProjectStatus → Option ℕ → Option ℕ
completed_by now (some completed) old = some now
completed_by now _ old = old

abbrev pub changed : ℕ → UpdateProjectDto → Project → Project
changed now dto r = record {
  organization_id = r.organization_id;
  created_by_id = r.created_by_id;
  name = or_default dto.name r.name;
  status = or_default dto.status r.status;
  start_date = or_else dto.start_date r.start_date;
  deadline = or_else dto.deadline r.deadline;
  completed_at = completed_by now dto.status r.completed_at;
}

abbrev pub made : ℕ → ℕ → CreateProjectDto → Project
made org user dto = record {
  organization_id = org;
  created_by_id = user;
  name = dto.name;
  status = or_default dto.status planning;
  start_date = dto.start_date;
  deadline = dto.deadline;
  completed_at = none;
}

abbrev pub joined : ℕ → ℕ → MemberRole → ProjectMember
joined project user role = record { project_id = project; user_id = user; role = role }

abbrev pub is_member : ℕ → ℕ → ℕ → ProjectMember → Bool
is_member project user i m = m.project_id == project && m.user_id == user

abbrev pub is_owned : ℕ → ℕ → ℕ → Project → Bool
is_owned org id i r = i == id && r.organization_id == org

module _ (projects : Table Project) where
  unfoldable pub find_one : ℕ → ℕ → projects.State → Result (ℕ × Project)
  find_one org id s = elim (projects.find_first s (is_owned org id)) [
    | none ↦ failed not_found
    | some x ↦ ok x
  ]

  unfoldable pub update :
      ℕ → ℕ → UpdateProjectDto → ℕ → projects.State → Result (Option Project) × projects.State
  update org id dto now s =
      let (row, s') = projects.update s id (changed now dto) in
      elim (find_one org id s) [ failed e ↦ (failed e, s) | ok _ ↦ (ok row, s') ]

  unfoldable pub delete : ℕ → ℕ → projects.State → Result ℕ × projects.State
  delete org id s =
      let s' = (projects.update s id (λ r. record r { status = archived })).1 in
      elim (find_one org id s) [ failed e ↦ (failed e, s) | ok _ ↦ (ok id, s') ]

module _ (projects : Table Project) (members : Table ProjectMember) where
  -- The project and its first member are one nested create.
  unfoldable pub create :
      ℕ
      → ℕ
      → CreateProjectDto
      → projects.State × members.State
      → ℕ × (projects.State × members.State)
  create org user dto s =
      let (id, ps) = projects.create s.0 (made org user dto) in
      (id, (ps, (members.create s.1 (joined id user lead)).1))

  -- An empty role counts as none.
  unfoldable pub add_member :
      ℕ
      → ℕ
      → ℕ
      → Option MemberRole
      → projects.State × members.State
      → Result ℕ × (projects.State × members.State)
  add_member org project user role s =
      let (id, ms) = members.create s.1 (joined project user (or_default role member)) in
      elim (find_one projects org project s.0) [
        | failed e ↦ (failed e, s)
        | ok _ ↦ elim (members.find_first s.1 (is_member project user)) [
          | none ↦ (ok id, (s.0, ms))
          | some _ ↦ (failed conflict, s)
        ]
      ]

  unfoldable pub remove_member :
      ℕ → ℕ → ℕ → projects.State × members.State → Result ℕ × (projects.State × members.State)
  remove_member org project user s = elim (find_one projects org project s.0) [
    | failed e ↦ (failed e, s)
    | ok _ ↦ (ok user, (s.0, members.delete_many s.1 (is_member project user)))
  ]
