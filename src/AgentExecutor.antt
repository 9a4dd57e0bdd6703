-- ===== src/AgentExecutor.antt =====
-- src/modules/agents/agent-executor.service.ts: the bounded loop of an agent's run. What the loop
-- awaits (the model, a tool) acts on the world, in which other requests may have changed anything
-- by then, the settings included; the run's row and actions are written by this loop alone.
mod Types
pub mod Rounds
pub mod Actions
pub mod Tests
use flow_ai.Common.{
  ℕ, suc, zero, ◌+◌, ◌/◌, Bool, true, false, not, Option, none, some, or_default, List, [], ◌∷◌,
  ◌++◌, includes, ◌==◌, ◌⊎◌, inl, inr, if◌then◌else◌,
}
use flow_ai.AgentSettings
use flow_ai.AgentSettings.{AgentSettings, Rows, Budget, consume_token_budget}
use flow_ai.Failover.{AiProvider, TextResult}
pub use Types.*

module _ (texts : Texts) where
  abbrev call_in : texts.Json → Option ToolCall
  call_in v = elim (texts.tool v) [
    | none ↦ none
    | some t ↦ some (record { thought = texts.thought v; tool = t; args = texts.args v })
  ]

  pub parse_tool_call : Option ℕ → Option ToolCall
  parse_tool_call none = none
  parse_tool_call (some raw) =
      let cleaned = texts.strip_fences raw in
      elim (texts.parse cleaned) [
        | some v ↦ call_in v
        | none ↦ elim (texts.outermost_braces cleaned) [
          | none ↦ none
          | some braces ↦ elim (texts.parse braces) [ none ↦ none | some v ↦ call_in v ]
        ]
      ]

  pub estimated : Prompt → ℕ
  estimated prompt = (texts.length (texts.render prompt) + 3) / 4 + 500

module _ {O : Type 0} (org : ℕ) where
  unfoldable pub look : World O → Bool × World O
  unfolding AgentSettings.is_halted
  look w =
      let (is_on, rows) = AgentSettings.is_halted org w.settings in
      (is_on, record w { settings = rows })

  pub spend : ℕ → World O → Budget × World O
  spend tokens w =
      let (budget, rows) = consume_token_budget org tokens w.clock w.settings in
      (budget, record w { settings = rows })

module _ {O : Type 0} (provider : AiProvider (World O)) where
  -- The text, of which none is the empty one, or what it throws.
  pub generate : ℕ → World O → (Failure ⊎ Option ℕ) × World O
  generate prompt w =
      if provider.available
      then (let (answer, w') = provider.generate_text_result prompt w in
          (
            elim answer [
              | none ↦ inl thrown
              | some result ↦ elim result.error [
                | some e ↦ inl (provider_error e)
                | none ↦ inr result.text
              ]
            ],
            w',
          ))
      else (inl no_api_key, w)

-- What the executor logs and returns for a tool's outcome.
abbrev pub settled : ToolCall → Dispatched → Progress → Observation × Progress
settled call (resolved x) p = (
  returned x,
  logged (record { tool = call.tool; input = call.args; output = returned x; status = went_well })
      p,
)
settled call (threw e) p = (
  error e,
  logged (record { tool = call.tool; input = call.args; output = error e; status = went_wrong }) p,
)

module _ {O : Type 0} (dispatch : ℕ → Agent → ToolCall → World O → Dispatched × World O) (org : ℕ)
    (agent : Agent) where
  pub execute_tool : ToolCall → Progress → World O → Observation × Progress × World O
  execute_tool call p w =
      let (outcome, w') = dispatch org agent call w in
      let (observation, p') = settled call outcome p in
      if includes call.tool agent.tools then (observation, p', w') else (
        not_allowed call.tool,
        logged
            (record {
              tool = call.tool;
              input = call.args;
              output = not_allowed call.tool;
              status = blocked;
            })
            p,
        w,
      )

module _ {O : Type 0} (texts : Texts)
    (dispatch : ℕ → Agent → ToolCall → World O → Dispatched × World O) (org : ℕ)
    (agent : Agent) where
  -- The answer is a tool call: finish, or a tool whose result joins the transcript.
  pub act : ToolCall → Progress → World O → Next O
  unfolding execute_tool
  act call p w =
      if call.tool == finish
      then (let said = texts.summary call.args in
          leaves (finished (some (done said)))
            (logged
              (record {
                tool = finish;
                input = call.args;
                output = summary said;
                status = went_well;
              })
              p)
            w)
      else let (observation, p', w') = execute_tool dispatch org agent call p w in
        goes_on
          (record p' {
            transcript = p'.transcript ++ record { call = call; result = observation } ∷ [];
            steps = suc p'.steps;
          })
          w'

  -- The answer is no tool call.
  abbrev pub prose_ending : Option ℕ → Ending
  prose_ending none = raised empty_response
  prose_ending (some raw) =
      if texts.is_blank raw then raised empty_response else finished (some (prose raw))

  pub answer : (Failure ⊎ Option ℕ) → Progress → World O → Next O
  answer (inl e) p w = leaves (raised e) p w
  answer (inr raw) p w = elim (parse_tool_call texts raw) [
    | none ↦ leaves (prose_ending raw) p w
    | some call ↦ act call p w
  ]

abbrev pub closed : Ending → Progress → Run
closed (finished o) p = record {
  status = completed;
  steps = p.steps;
  cost_tokens = p.total_tokens;
  output = some (or_default o step_limit_reached);
  actions = p.actions;
}
closed (raised e) p = record {
  status = run_failed;
  steps = p.steps;
  cost_tokens = p.total_tokens;
  output = some (failed e);
  actions = p.actions;
}

-- The row as it is made.
abbrev pub opened : Run
opened = record { status = running; steps = 0; cost_tokens = 0; output = none; actions = [] }

abbrev pub no_progress : Progress
no_progress = record { transcript = []; total_tokens = 0; steps = 0; actions = [] }

module _ {O : Type 0} (texts : Texts) (provider : AiProvider (World O))
    (dispatch : ℕ → Agent → ToolCall → World O → Dispatched × World O)
    (brand_context : ℕ → World O → Option ℕ × World O) (org : ℕ) (agent : Agent) where
  -- One pass through the body of the loop.
  pub step : ℕ → ℕ → Progress → World O → Next O
  step brand instruction p w =
      let (is_on, w₁) = look org w in
      let prompt : Prompt = record {
        agent = agent;
        brand_context = brand;
        instruction = instruction;
        transcript = p.transcript;
      } in
      let (budget, w₂) = spend org (estimated texts prompt) w₁ in
      let (raw, w₃) = generate provider (texts.render prompt) w₂ in
      if is_on
      then leaves (finished (some stopped_mid_run)) p w₁
      else if budget.allowed
      then answer texts dispatch org agent raw
          (record p { total_tokens = p.total_tokens + estimated texts prompt }) w₃
      else leaves (finished (some budget_exhausted)) p w₂

  pub loop : ℕ → ℕ → ℕ → Progress → World O → Ending × Progress × World O
  loop brand instruction zero p w = (finished none, p, w)
  loop brand instruction (suc n) p w =
      follow (loop brand instruction n) (step brand instruction p w)

  -- The run's row, unless none was made, with the output. The brand context is read after the row
  -- is made and before the try: if it throws (none), so does the call, and the row stays as made.
  pub run_agent : ℕ → World O → (Output ⊎ Run) × World O
  run_agent instruction w =
      let (is_on, w₁) = look org w in
      let (settings, rows) = AgentSettings.get org w₁.settings in
      let (brand, w₂) = brand_context org (record w₁ { settings = rows }) in
      if is_on
      then (inl Output.halted, w₁)
      else if agent.is_active
      then elim brand [
        | none ↦ (inr opened, w₂)
        | some context ↦
            let (ending, p, w₃) =
              loop context instruction settings.max_agent_steps_per_run no_progress w₂ in
            (inr (closed ending p), w₃)
      ]
      else (inl deactivated, w₁)
