-- ===== src/AgentSettings/Tests.antt =====
-- The settings theorems at one organization.
use flow_ai.Common.{ℕ, ◌+◌, refl, true, none, some, [], ◌∷◌, arith}
use flow_ai.AgentSettings.{AgentSettings, Rows, Patch, default_settings, put}
use flow_ai.AgentSettings.Laws.{Guarded, run, run-Guarded, gets, updates}
use flow_ai.AgentSettings.TokenBudget.{Charge, Within, consume_all, token_limit_holds}

abbrev no_rows : Rows
no_rows = λ _. none

abbrev no_change : Patch
no_change = record {
  kill_switch = none;
  autonomy_enabled = none;
  paused_channels = none;
  max_posts_per_day = none;
  max_agent_steps_per_run = none;
  max_tokens_per_day = none;
  email_hold_minutes = none;
  auto_send_email = none;
  email_allowlist = none;
  daily_plan_hour = none;
}

abbrev allow_42 : Patch
allow_42 = record no_change { email_allowlist = some (42 ∷ []) }

abbrev auto_send : Patch
auto_send = record no_change { auto_send_email = some true }

no_rows-Guarded : Guarded no_rows
no_rows-Guarded org s e = ground arith

-- Switched on too early, then with a list.
run-Guarded_example :
    Guarded
      (run no_rows (updates 1 auto_send ∷ updates 1 allow_42 ∷ updates 1 auto_send ∷ gets 2 ∷ []))
run-Guarded_example =
    run-Guarded no_rows
      (updates 1 auto_send ∷ updates 1 allow_42 ∷ updates 1 auto_send ∷ gets 2 ∷ []) no_rows-Guarded

abbrev limited : AgentSettings
limited = record default_settings {
  max_tokens_per_day = 1000;
  tokens_used_today = 100;
  tokens_reset_at = some 50;
}

abbrev charge : ℕ → ℕ → Charge
charge n t = record { tokens = n; now = t }

limited-Within : Within 1 50 1000 100 (put 1 limited no_rows)
limited-Within = record {
  row = limited;
  stored = refl;
  resets = refl;
  limit = refl;
  count = refl;
  bound = omega arith;
}

token_limit_holds_example :
    Within 1 50 1000
      (100
        + (consume_all 1
            (charge 600 10 ∷ charge 600 20 ∷ charge 300 50 ∷ [])
            (put 1 limited no_rows)).0)
      (consume_all 1 (charge 600 10 ∷ charge 600 20 ∷ charge 300 50 ∷ []) (put 1 limited no_rows)).1
token_limit_holds_example =
    token_limit_holds 1 50 1000 100 (charge 600 10 ∷ charge 600 20 ∷ charge 300 50 ∷ [])
      (put 1 limited no_rows) (omega arith, (omega arith, (omega arith, tt))) limited-Within
