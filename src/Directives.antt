-- ===== src/Directives.antt =====
-- The work that src/modules/orchestrator/orchestrator.service.ts gives to agents: createDirective,
-- processAgentTasks and handleInboundEmail. `run_agent` is the executor's run for a task, whose
-- tools may change the tasks; it answers whether its output starts with "Failed", or throws (none),
-- as it does when the brand context or the closing of its row fails. What agents.service.ts finds (the agent, the project of the agents
-- and the owner) is an argument. The events for the sockets are left out.
pub mod Progress
pub mod Tests
use flow_ai.Common.{
  ℕ, Bool, true, false, ◌&&◌, ◌||◌, Option, none, some, or_default, List, [], ◌∷◌, ◌==◌, is_empty,
  is_some, if◌then◌else◌, Result, ok, failed, HttpError, not_found, server_error, not, Text, codes,
  same_text, trim, first_chars,
}
use flow_ai.Database.{Table}
use flow_ai.Emails.{EmailMessage, inbound, received, triaged}
use flow_ai.Tasks.{
  TaskStatus, todo, in_progress, in_review, TaskPriority, low, medium, high, urgent,
}

-- A task of the table as the agents see it.
pub record AgentTask : Type 0 where
  pub organization_id : ℕ
  pub project_id : ℕ
  pub title : Text
  pub description : Text
  pub priority : TaskPriority
  pub due_date : Option ℕ
  pub assignee_agent_id : Option ℕ
  pub origin_is_agent : Bool
  pub created_by_id : ℕ
  pub status : TaskStatus
  pub position : ℕ

pub record DirectiveDto : Type 0 where
  pub instruction : Text
  pub title : Option Text
  pub priority : Option Text
  pub due_date : Option ℕ
  pub run_now : Bool

-- The agent of the role, the project of the agents, and the owner of the organization.
pub record Staff : Type 0 where
  pub agent : ℕ
  pub project : ℕ
  pub owner : ℕ

abbrev pub is_in_progress : TaskStatus → Bool
is_in_progress in_progress = true
is_in_progress _ = false

abbrev pub is_todo : TaskStatus → Bool
is_todo todo = true
is_todo _ = false

abbrev pub title_of : DirectiveDto → Text
title_of dto = elim dto.title [
  | none ↦ first_chars 90 dto.instruction
  | some t ↦ if is_empty t then first_chars 90 dto.instruction else t
]

-- Any other text is MEDIUM.
abbrev pub priority_of : Option Text → TaskPriority
priority_of none = medium
priority_of (some p) =
    if same_text p (codes "LOW")
    then low
    else if same_text p (codes "HIGH")
    then high
    else if same_text p (codes "URGENT")
    then urgent
    else medium

abbrev pub directive : ℕ → Staff → DirectiveDto → ℕ → AgentTask
directive org staff dto count = record {
  organization_id = org;
  project_id = staff.project;
  title = title_of dto;
  description = dto.instruction;
  priority = priority_of dto.priority;
  due_date = dto.due_date;
  assignee_agent_id = some staff.agent;
  origin_is_agent = true;
  created_by_id = staff.owner;
  status = todo;
  position = count;
}

-- The where clause of processAgentTasks.
abbrev pub is_waiting : AgentTask → Bool
is_waiting r = r.origin_is_agent && is_todo r.status && is_some r.assignee_agent_id

-- The tests of the loop: a task with no agent any more, and a halted organization.
abbrev pub is_passed_over : (halted has_agent : ℕ → Bool) → AgentTask → Bool
is_passed_over halted has_agent r = elim r.assignee_agent_id [
  | none ↦ true
  | some a ↦ if has_agent a then halted r.organization_id else true
]

module _ (tasks : Table AgentTask) (run_agent : ℕ → tasks.State → Option Bool × tasks.State) where
  abbrev pub with_status : ℕ → TaskStatus → tasks.State → tasks.State
  with_status id status s = (tasks.update s id (λ r. record r { status = status })).1

  -- A task that the agent has left in progress goes back: to the list if the run failed, and
  -- otherwise for review.
  abbrev pub put_back : ℕ → Bool → tasks.State → tasks.State
  put_back id has_failed s = elim (tasks.find s id) [
    | none ↦ s
    | some fresh ↦
        if is_in_progress fresh.status
        then with_status id (if has_failed then todo else in_review) s
        else s
  ]

  -- One task that is worked on, and whether the run threw: then the task is left as it is.
  unfoldable pub work : ℕ → tasks.State → Bool × tasks.State
  work id s =
      let (answer, s') = run_agent id (with_status id in_progress s) in
      elim answer [ none ↦ (true, s') | some has_failed ↦ (false, put_back id has_failed s') ]

  -- `count` is the number of the tasks of the project.
  unfoldable pub create_directive :
      (count : tasks.State → ℕ → ℕ)
      → ℕ
      → DirectiveDto
      → Result Staff
      → tasks.State
      → Result ℕ × tasks.State
  create_directive count org dto staff s =
      if is_empty (trim dto.instruction) then (failed not_found, s) else elim staff [
        | failed e ↦ (failed e, s)
        | ok st ↦
            let (id, s') = tasks.create s (directive org st dto (count s st.project)) in
            let (threw, s'') = work id s' in
            if dto.run_now then (if threw then failed server_error else ok id, s'') else (ok id, s')
      ]

  -- The tasks that findMany found, at most two and the oldest first. `halted` is what isHalted
  -- answers for the organization. Also the task whose run threw, if any, which ends the tick.
  unfoldable pub process_agent_tasks :
      (halted : ℕ → Bool) (has_agent : ℕ → Bool)
      → List (ℕ × AgentTask)
      → tasks.State
      → Option ℕ × tasks.State
  process_agent_tasks halted has_agent [] s = (none, s)
  process_agent_tasks halted has_agent ((id, r) ∷ found) s =
      let skip = is_passed_over halted has_agent r in
      let (threw, worked) = work id s in
      let rest = process_agent_tasks halted has_agent found (if skip then s else worked) in
      if not skip && threw then (some id, worked) else rest

-- The message is stored, the CEO's agent decides, and the message is marked, unless the run throws.
pub record InboundDto : Type 0 where
  pub to : Option ℕ
  pub subject : Option ℕ
  pub body : ℕ

module _ (emails : Table EmailMessage) (run_agent : ℕ → emails.State → Bool × emails.State) where
  -- `inbox` is the address 'inbox'; without a CEO the message stays as received.
  pub handle_inbound_email :
      (inbox org : ℕ) → InboundDto → (ceo : Result ℕ) → emails.State → Result ℕ × emails.State
  handle_inbound_email inbox org dto ceo s =
      let row : EmailMessage = record {
        organization_id = org;
        direction = inbound;
        status = received;
        to_address = or_default dto.to inbox;
        subject = dto.subject;
        body_text = dto.body;
        hold_until = none;
        sent_at = none;
      } in
      let (id, s') = emails.create s row in
      elim ceo [
        | failed e ↦ (failed e, s')
        | ok agent ↦
            let (threw, s'') = run_agent id s' in
            if threw
            then (failed server_error, s'')
            else (ok id, (emails.update s'' id (λ r. record r { status = triaged })).1)
      ]
