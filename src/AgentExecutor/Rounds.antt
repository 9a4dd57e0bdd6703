-- ===== src/AgentExecutor/Rounds.antt =====
-- What a run does to the world: bounded rounds, each behind the kill switch and the budget.
use flow_ai.Common.{
  Option-cases, ℕ, suc, zero, ◌≡◌, ◌⊎◌, inl, inr, Bool, true, false, Option, arith, includes, ◌==◌,
  if◌then◌else◌, Bool-cases, Option-cases,
}
use flow_ai.AgentSettings
use flow_ai.AgentSettings.{AgentSettings, Budget}
use flow_ai.Failover.{AiProvider}
use flow_ai.AgentExecutor.{
  World, Agent, ToolCall, Texts, Prompt, Dispatched, Progress, Next, Failure, leaves, goes_on,
  finish, look, spend, generate, execute_tool, act, answer, step, follow, loop, run_agent,
  estimated, parse_tool_call, no_progress,
}

third :
    {A W : Type 0} (P : W → Type 0) (b c : Bool) (x y z : A × W)
    → b ≡ false
    → c ≡ true
    → P y.1
    → P (if◌then◌else◌ {A = A × W} b x (if c then y else z)).1
third P true c x y z off on h = absurd (ground arith)
third P false true x y z off on h = h
third P false false x y z off on h = absurd (ground arith)

module _ {O : Type 0} (texts : Texts) (provider : AiProvider (World O))
    (dispatch : ℕ → Agent → ToolCall → World O → Dispatched × World O)
    (brand_context : ℕ → World O → Option ℕ × World O) (org : ℕ) (agent : Agent) where
  -- A round's tool: none, or one of the agent's own.
  pub data Tool (w : World O) : World O → Type 0 where
    no_tool : Tool w w
    own_tool :
        (call : ToolCall)
        → includes call.tool agent.tools ≡ true
        → Tool w (dispatch org agent call w).1

  -- At most n rounds. A round begins with the kill switch read as off and the tokens of its
  -- prompt granted; only then the model is asked and at most one tool of the agent runs. The
  -- switch read as on, or the budget refused, is the end.
  pub data Rounds : ℕ → World O → World O → Type 0 where
    rests : {n : ℕ} {w : World O} → Rounds n w w
    stopped : {n : ℕ} {w : World O} → (look org w).0 ≡ true → Rounds n w (look org w).1
    denied :
        {n : ℕ} {w : World O} (prompt : Prompt)
        → (look org w).0 ≡ false
        → (spend org (estimated texts prompt) (look org w).1).0.allowed ≡ false
        → Rounds n w (spend org (estimated texts prompt) (look org w).1).1
    asks :
        {n : ℕ} {w w' w'' : World O} (prompt : Prompt)
        → (look org w).0 ≡ false
        → (spend org (estimated texts prompt) (look org w).1).0.allowed ≡ true
        → Tool
            (generate provider
              (texts.render prompt)
              (spend org (estimated texts prompt) (look org w).1).1).1
            w'
        → Rounds n w' w''
        → Rounds (suc n) w w''

  world_of : Next O → World O
  world_of (leaves e p w) = w
  world_of (goes_on p w) = w

  execute_tool-Tool :
      (call : ToolCall) (p : Progress) (w : World O)
      → Tool w (execute_tool dispatch org agent call p w).2
  unfolding execute_tool
  execute_tool-Tool call p w = elim (Bool-cases (includes call.tool agent.tools)) [
    | inl own ↦ rw (own, execute_tool) (own_tool call own)
    | inr other ↦ rw (other, execute_tool) no_tool
  ]

  act-Tool :
      (call : ToolCall) (p : Progress) (w : World O)
      → Tool w (world_of (act texts dispatch org agent call p w))
  unfolding act world_of
  act-Tool call p w = elim (Bool-cases (call.tool == finish)) [
    | inl e ↦ rw (e, act) no_tool
    | inr e ↦ rw (e, act) (execute_tool-Tool call p w)
  ]

  answer-Tool :
      (raw : Failure ⊎ Option ℕ) (p : Progress) (w : World O)
      → Tool w (world_of (answer texts dispatch org agent raw p w))
  unfolding answer world_of
  answer-Tool (inl e) p w = no_tool
  answer-Tool (inr raw) p w = elim (Option-cases (parse_tool_call texts raw)) [
    | inl e ↦ rw (e, answer) no_tool
    | inr (call, e) ↦ rw (e, answer) (act-Tool call p w)
  ]

  follow-Rounds :
      (n brand instruction : ℕ) (prompt : Prompt) (next : Next O) (w : World O)
      → ((p' : Progress) (w' : World O)
          → Rounds n w'
              (loop texts provider dispatch brand_context org agent brand instruction n p' w').2)
      → (look org w).0 ≡ false
      → (spend org (estimated texts prompt) (look org w).1).0.allowed ≡ true
      → Tool
          (generate provider
            (texts.render prompt)
            (spend org (estimated texts prompt) (look org w).1).1).1
          (world_of next)
      → Rounds
          (suc n)
          w
          (follow (loop texts provider dispatch brand_context org agent brand instruction n) next).2
  unfolding world_of
  follow-Rounds n brand instruction prompt (leaves e p w') w rest off granted tool =
      asks prompt off granted tool rests
  follow-Rounds n brand instruction prompt (goes_on p w') w rest off granted tool =
      asks prompt off granted tool (rest p w')

  loop-Rounds :
      (brand instruction n : ℕ) (p : Progress) (w : World O)
      → Rounds n w (loop texts provider dispatch brand_context org agent brand instruction n p w).2
  unfolding loop step
  loop-Rounds brand instruction zero p w = rests
  loop-Rounds brand instruction (suc n) p w =
      let prompt : Prompt = record {
        agent = agent;
        brand_context = brand;
        instruction = instruction;
        transcript = p.transcript;
      } in
      let (budget, w₂) = spend org (estimated texts prompt) (look org w).1 in
      elim (Bool-cases (look org w).0) [
        | inl on ↦ rw (loop, step, on) (stopped on)
        | inr off ↦ elim (Bool-cases budget.allowed) [
          | inr short ↦ rw (loop, step, off, short) (denied prompt off short)
          | inl enough ↦
              follow-Rounds n brand instruction prompt
                (step texts provider dispatch brand_context org agent brand instruction p w) w
                (loop-Rounds brand instruction n) off enough
                (rw (step, off, enough) (answer-Tool _ _ _))
        ]
      ]

  -- The run of an active agent, the kill switch being off when it starts, does to the world no
  -- more than the reading of its settings and its brand context, and then at most as many rounds
  -- as the settings allow: each with the kill switch read as off and its tokens granted before
  -- the model is asked, and with at most one tool, which is one of the agent's.
  pub run-Rounds :
      (instruction : ℕ) (w : World O)
      → (look org w).0 ≡ false
      → agent.is_active ≡ true
      → let (settings, rows) = AgentSettings.get org (look org w).1.settings in
        let (brand, w₂) = brand_context org (record (look org w).1 { settings = rows }) in
        Rounds settings.max_agent_steps_per_run w₂
          (run_agent texts provider dispatch brand_context org agent instruction w).1
  unfolding run_agent
  run-Rounds instruction w off active =
      let (settings, rows) = AgentSettings.get org (look org w).1.settings in
      let (brand, w₂) = brand_context org (record (look org w).1 { settings = rows }) in
      let max = settings.max_agent_steps_per_run in
      third (Rounds max w₂) (look org w).0 agent.is_active _ _ _ off active
        (elim (Option-cases brand) [
          | inl unread ↦ rw unread rests
          | inr (context, read) ↦ rw read (loop-Rounds context instruction max no_progress w₂)
        ])
