-- ===== src/AgentExecutor/Actions.antt =====
-- What a run leaves in its row.
use flow_ai.Common.{
  is_some, Option-cases, none, ℕ, suc, zero, ◌+◌, ◌≤◌, ◌≡◌, refl, ◌⊎◌, inl, inr, true, Option,
  arith, subst, includes, List, [], ◌∷◌, length, length-append, All, All-append, ◌==◌, Bool-cases,
  Option-cases,
}
use flow_ai.AgentSettings
use flow_ai.AgentSettings.{AgentSettings, Budget}
use flow_ai.Failover.{AiProvider}
use flow_ai.AgentExecutor.{
  World, Agent, ToolCall, Texts, Prompt, Dispatched, resolved, threw, Progress, Next, Ending,
  Failure, leaves, goes_on, finish, look, spend, generate, execute_tool, act, answer, step, loop,
  run_agent, estimated, parse_tool_call, finished, raised, no_progress, opened, follow, closed,
  Entry, AgentAction, blocked, Run, logged, settled, completed, run_failed,
}

module _ {O : Type 0} (texts : Texts) (provider : AiProvider (World O))
    (dispatch : ℕ → Agent → ToolCall → World O → Dispatched × World O)
    (brand_context : ℕ → World O → Option ℕ × World O) (org : ℕ) (agent : Agent) where
  -- The action was refused, ended the run, or used a tool of the agent.
  pub Permitted : AgentAction → Type 0
  Permitted a = (a.status ≡ blocked) ⊎ (a.tool ≡ finish) ⊎ (includes a.tool agent.tools ≡ true)

  -- What the loop has gathered after at most n passes.
  pub record Kept (n : ℕ) (p : Progress) : Type 0 where
    pub few_steps : p.steps ≤ n
    pub few_actions : length p.actions ≤ n
    pub permitted : All Permitted p.actions

  logged-Kept :
      (n : ℕ) (a : AgentAction) (p : Progress) → Permitted a → Kept n p → Kept (suc n) (logged a p)
  logged-Kept n a p h k = record {
    few_steps = omega (arith, k.few_steps);
    few_actions = omega (arith, k.few_actions, length-append p.actions (a ∷ []));
    permitted = All-append Permitted p.actions (a ∷ []) k.permitted (h, tt);
  }

  later-Kept : (n : ℕ) (p : Progress) → Kept n p → Kept (suc n) p
  later-Kept n p k = record {
    few_steps = omega (arith, k.few_steps);
    few_actions = omega (arith, k.few_actions);
    permitted = k.permitted;
  }

  counted-Kept :
      (n : ℕ) (a : AgentAction) (p : Progress) (t : List Entry)
      → Permitted a
      → Kept n p
      → Kept (suc n) (record (logged a p) { transcript = t; steps = suc p.steps })
  counted-Kept n a p t h k =
      let l = logged-Kept n a p h k in
      record {
        few_steps = omega (arith, k.few_steps);
        few_actions = l.few_actions;
        permitted = l.permitted;
      }

  settled-Kept :
      (n : ℕ) (call : ToolCall) (d : Dispatched) (p : Progress) (t : List Entry)
      → includes call.tool agent.tools ≡ true
      → Kept n p
      → Kept
          (suc n)
          (record (settled call d p).1 { transcript = t; steps = suc (settled call d p).1.steps })
  unfolding Permitted
  settled-Kept n call (resolved x) p t own k = counted-Kept n _ p t (inr (inr own)) k
  settled-Kept n call (threw e) p t own k = counted-Kept n _ p t (inr (inr own)) k

  NextKept : ℕ → Next O → Type 0
  NextKept n (leaves e p w) = Kept n p
  NextKept n (goes_on p w) = Kept n p

  act-Kept :
      (n : ℕ) (call : ToolCall) (p : Progress) (w : World O)
      → Kept n p
      → NextKept (suc n) (act texts dispatch org agent call p w)
  unfolding act execute_tool NextKept Permitted
  act-Kept n call p w k = elim (Bool-cases (call.tool == finish)) [
    | inl e ↦ rw (e, act) (logged-Kept n _ p (inr (inl refl)) k)
    | inr e ↦ elim (Bool-cases (includes call.tool agent.tools)) [
      | inl own ↦ rw (e, own, act, execute_tool) (settled-Kept n call _ p _ own k)
      | inr other ↦ rw (e, other, act, execute_tool) (counted-Kept n _ p _ (inl refl) k)
    ]
  ]

  answer-Kept :
      (n : ℕ) (raw : Failure ⊎ Option ℕ) (p : Progress) (w : World O)
      → Kept n p
      → NextKept (suc n) (answer texts dispatch org agent raw p w)
  unfolding answer NextKept
  answer-Kept n (inl e) p w k = later-Kept n p k
  answer-Kept n (inr raw) p w k = elim (Option-cases (parse_tool_call texts raw)) [
    | inl e ↦ rw (e, answer) (later-Kept n p k)
    | inr (call, e) ↦ rw (e, answer) (act-Kept n call p w k)
  ]

  step-Kept :
      (brand instruction n : ℕ) (p : Progress) (w : World O)
      → Kept n p
      → NextKept
          (suc n)
          (step texts provider dispatch brand_context org agent brand instruction p w)
  unfolding step NextKept
  step-Kept brand instruction n p w k =
      let prompt : Prompt = record {
        agent = agent;
        brand_context = brand;
        instruction = instruction;
        transcript = p.transcript;
      } in
      let (budget, w₂) = spend org (estimated texts prompt) (look org w).1 in
      elim (Bool-cases (look org w).0) [
        | inl on ↦ rw (step, on) (later-Kept n p k)
        | inr off ↦ elim (Bool-cases budget.allowed) [
          | inr short ↦ rw (step, off, short) (later-Kept n p k)
          | inl enough ↦
              rw (step, off, enough)
                (answer-Kept n (generate provider (texts.render prompt) w₂).0
                  (record p { total_tokens = p.total_tokens + estimated texts prompt })
                  (generate provider (texts.render prompt) w₂).1
                  (record {
                    few_steps = k.few_steps;
                    few_actions = k.few_actions;
                    permitted = k.permitted;
                  }))
        ]
      ]

  weaker-Kept : (n m : ℕ) (p : Progress) → n ≤ m → Kept n p → Kept m p
  weaker-Kept n m p h k = record {
    few_steps = omega (arith, k.few_steps, h);
    few_actions = omega (arith, k.few_actions, h);
    permitted = k.permitted;
  }

  follow-Kept :
      (n m : ℕ) (rest : Progress → World O → Ending × Progress × World O) (next : Next O)
      → ((p : Progress) (w : World O) → Kept n p → Kept (n + m) (rest p w).1)
      → NextKept n next
      → Kept (n + m) (follow rest next).1
  unfolding NextKept
  follow-Kept n m rest (leaves e p w) h k = weaker-Kept n (n + m) p (omega arith) k
  follow-Kept n m rest (goes_on p w) h k = h p w k

  loop-Kept :
      (brand instruction m n : ℕ) (p : Progress) (w : World O)
      → Kept n p
      → Kept
          (n + m)
          (loop texts provider dispatch brand_context org agent brand instruction m p w).1
  unfolding loop
  loop-Kept brand instruction zero n p w k = weaker-Kept n (n + 0) p (omega arith) k
  loop-Kept brand instruction (suc m) n p w k =
      subst
        (λ i.
          Kept i
            (loop texts provider dispatch brand_context org agent brand instruction (suc m) p w).1)
        (omega arith)
        (follow-Kept (suc n) m
          (loop texts provider dispatch brand_context org agent brand instruction m)
          (step texts provider dispatch brand_context org agent brand instruction p w)
          (loop-Kept brand instruction m (suc n)) (step-Kept brand instruction n p w k))

  -- The row of a run is closed as completed or failed, with no more steps and no more actions than
  -- the limit n, each of them blocked, the finish, or a tool of the agent.
  pub record Closed (n : ℕ) (run : Run) : Type 0 where
    pub ended : (run.status ≡ completed) ⊎ (run.status ≡ run_failed)
    pub few_steps : run.steps ≤ n
    pub few_actions : length run.actions ≤ n
    pub permitted : All Permitted run.actions

  closed-Closed : (n : ℕ) (e : Ending) (p : Progress) → Kept n p → Closed n (closed e p)
  closed-Closed n (finished o) p k = record {
    ended = inl refl;
    few_steps = k.few_steps;
    few_actions = k.few_actions;
    permitted = k.permitted;
  }
  closed-Closed n (raised e) p k = record {
    ended = inr refl;
    few_steps = k.few_steps;
    few_actions = k.few_actions;
    permitted = k.permitted;
  }

  -- A run of an active agent that gets a row, and whose brand context can be read, ends and closes
  -- its row: as completed or as failed, with at most as many steps and actions as the settings read
  -- at its start allow, and every action that was not blocked and did not end the run used a tool
  -- of the agent. If reading the brand context throws, the row stays as it was made, RUNNING.
  pub run-Closed :
      (instruction : ℕ) (w : World O) (run : Run)
      → (run_agent texts provider dispatch brand_context org agent instruction w).0 ≡ inr run
      → let (settings, rows) = AgentSettings.get org (look org w).1.settings in
        let (brand, w₂) = brand_context org (record (look org w).1 { settings = rows }) in
        ((is_some brand ≡ true) × Closed settings.max_agent_steps_per_run run)
        ⊎ ((brand ≡ none) × (run ≡ opened))
  unfolding run_agent
  run-Closed instruction w run e =
      let (settings, rows) = AgentSettings.get org (look org w).1.settings in
      let (brand, w₂) = brand_context org (record (look org w).1 { settings = rows }) in
      let max = settings.max_agent_steps_per_run in
      elim (Option-cases brand) [
        | inl unread ↦ inr (unread, ground arith)
        | inr (context, read) ↦
            let (ending, p, w₃) =
              loop texts provider dispatch brand_context org agent context instruction max
                no_progress w₂ in
            let same : closed ending p ≡ run = ground arith in
            inl (
              ground arith,
              subst (Closed max) same (
                  closed-Closed max ending p (
                    weaker-Kept (0 + max) max p (omega arith) (
                      loop-Kept context instruction max 0 no_progress w₂ (record {
                        few_steps = omega arith;
                        few_actions = omega arith;
                        permitted = tt;
                      })))),
            )
      ]
