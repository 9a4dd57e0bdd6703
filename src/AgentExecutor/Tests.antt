-- ===== src/AgentExecutor/Tests.antt =====
-- The run theorems at an agent with one tool, whose model asks for that tool, for another one and
-- then for the end.
use flow_ai.Common.{
  ◌≡◌, ◌⊎◌, true, Option, ℕ, ◌+◌, refl, true, false, none, some, [], ◌∷◌, length, ◌==◌,
  if◌then◌else◌,
}
use flow_ai.AgentSettings
use flow_ai.AgentSettings.{Rows, default_settings, consume_token_budget}
use flow_ai.Failover.{AiProvider}
use flow_ai.AgentExecutor.{
  World, Agent, ToolCall, Texts, Dispatched, resolved, finish, look, spend, generate, execute_tool,
  act, answer, step, loop, run_agent, opened, estimated, parse_tool_call, blocked, went_well, Run,
  completed, done, returned, not_allowed, summary,
}
use flow_ai.AgentExecutor.Rounds.{Rounds, run-Rounds}
use flow_ai.AgentExecutor.Actions.{Closed, run-Closed}

abbrev plain : Texts
plain = record {
  Json = ℕ;
  length = λ _. 400;
  is_blank = λ _. false;
  strip_fences = λ t. t;
  outermost_braces = λ _. none;
  parse = λ t. some t;
  tool = λ v. some v;
  thought = λ _. none;
  args = λ _. 0;
  summary = λ _. none;
  render = λ p. length p.transcript;
}

-- Tool 7, tool 9, finish.
abbrev model : AiProvider (World ℕ)
model = record {
  available = true;
  generate_text_result = λ prompt w. (
    some (record {
      text = some (if prompt == 0 then 7 else if prompt == 1 then 9 else finish);
      error = none;
    }),
    w,
  );
  research_grounded = λ _ w. (some none, w);
  analyze_image = λ _ _ _ w. (some none, w);
  generate_image = λ _ w. (some none, w);
  generate_video = λ _ _ _ w. (some (record { ok = false; reason = none }), w);
}

abbrev count_it : ℕ → Agent → ToolCall → World ℕ → Dispatched × World ℕ
count_it org agent call w = (resolved 5, record w { outside = w.outside + 1 })

abbrev no_brand : ℕ → World ℕ → Option ℕ × World ℕ
no_brand org w = (some 0, w)

abbrev writer : Agent
writer = record { is_active = true; system_prompt = 0; tools = 7 ∷ [] }

abbrev start : World ℕ
start = record { settings = λ _. none; clock = 1000; outside = 0 }

abbrev made : Run
made = record {
  status = completed;
  steps = 2;
  cost_tokens = 1800;
  output = some (done none);
  actions =
      record { tool = 7; input = 0; output = returned 5; status = went_well }
      ∷ record { tool = 9; input = 0; output = not_allowed 9; status = blocked }
      ∷ record { tool = finish; input = 0; output = summary none; status = went_well }
      ∷ [];
}

run-Closed_example :
    ((true ≡ true) × Closed plain model count_it no_brand 1 writer 8 made)
    ⊎ (((no_brand 1 start).0 ≡ none) × (made ≡ opened))
unfolding run_agent loop step answer act execute_tool generate spend look estimated parse_tool_call
    AgentSettings.get AgentSettings.is_halted consume_token_budget
run-Closed_example = run-Closed plain model count_it no_brand 1 writer 3 start made refl

run-Rounds_example :
    Rounds plain model count_it no_brand 1 writer 8
      (record start { settings = AgentSettings.put 1 default_settings start.settings })
      (run_agent plain model count_it no_brand 1 writer 3 start).1
unfolding look AgentSettings.get AgentSettings.is_halted
run-Rounds_example = run-Rounds plain model count_it no_brand 1 writer 3 start refl refl
