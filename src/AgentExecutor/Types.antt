-- ===== src/AgentExecutor/Types.antt =====
-- The data of the agent's loop in src/modules/agents/agent-executor.service.ts: agents, tool calls,
-- the row of a run with its actions, and what the loop gathers.
use flow_ai.Common.{ℕ, Bool, Option, List, [], ◌∷◌, ◌++◌}
use flow_ai.AgentSettings.{Rows}

pub record World (O : Type 0) : Type 0 where
  pub settings : Rows
  pub clock : ℕ
  pub outside : O

pub record Agent : Type 0 where
  pub is_active : Bool
  pub system_prompt : ℕ
  pub tools : List ℕ

pub record ToolCall : Type 0 where
  pub thought : Option ℕ
  pub tool : ℕ
  pub args : ℕ

-- What a tool returned, or the message of what it threw.
pub data Observation : Type 0 where
  returned : ℕ → Observation
  error : ℕ → Observation
  not_allowed : ℕ → Observation
  summary : Option ℕ → Observation

pub data ActionStatus : Type 0 where
  went_well blocked went_wrong : ActionStatus

pub record AgentAction : Type 0 where
  pub tool : ℕ
  pub input : ℕ
  pub output : Observation
  pub status : ActionStatus

-- A step of the transcript.
pub record Entry : Type 0 where
  pub call : ToolCall
  pub result : Observation

-- What buildPrompt lays out.
pub record Prompt : Type 0 where
  pub agent : Agent
  pub brand_context : ℕ
  pub instruction : ℕ
  pub transcript : List Entry

pub data Failure : Type 0 where
  no_api_key empty_response thrown : Failure
  provider_error : ℕ → Failure

pub data Output : Type 0 where
  halted deactivated stopped_mid_run budget_exhausted step_limit_reached : Output
  done : Option ℕ → Output
  prose : ℕ → Output
  failed : Failure → Output

pub data RunStatus : Type 0 where
  running completed run_failed : RunStatus

-- The row of agentRun with its actions.
pub record Run : Type 0 where
  pub status : RunStatus
  pub steps : ℕ
  pub cost_tokens : ℕ
  pub output : Option Output
  pub actions : List AgentAction

-- Strings and JSON: JavaScript's own operations on the model's answers. `tool` answers if the
-- value has a field of that name that is a string.
pub record Texts : Type 1 where
  pub Json : Type 0
  pub length : ℕ → ℕ
  pub is_blank : ℕ → Bool
  pub strip_fences : ℕ → ℕ
  pub outermost_braces : ℕ → Option ℕ
  pub parse : ℕ → Option Json
  pub tool : Json → Option ℕ
  pub thought : Json → Option ℕ
  pub args : Json → ℕ
  pub summary : ℕ → Option ℕ
  pub render : Prompt → ℕ

pub data Dispatched : Type 0 where
  resolved threw : ℕ → Dispatched

-- The name "finish".
abbrev pub finish : ℕ
finish = 0

-- What the loop has gathered.
pub record Progress : Type 0 where
  pub transcript : List Entry
  pub total_tokens : ℕ
  pub steps : ℕ
  pub actions : List AgentAction

pub data Ending : Type 0 where
  finished : Option Output → Ending
  raised : Failure → Ending

pub data Next (O : Type 0) : Type 0 where
  leaves : Ending → Progress → World O → Next O
  goes_on : Progress → World O → Next O

abbrev pub follow :
    {O : Type 0}
    → (Progress → World O → Ending × Progress × World O)
    → Next O
    → Ending × Progress × World O
follow rest (leaves e p w) = (e, p, w)
follow rest (goes_on p w) = rest p w

abbrev pub logged : AgentAction → Progress → Progress
logged a p = record p { actions = p.actions ++ a ∷ [] }
