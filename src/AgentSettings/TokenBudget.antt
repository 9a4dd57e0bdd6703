-- ===== src/AgentSettings/TokenBudget.antt =====
-- The token budget under any sequence of requests for tokens.
use flow_ai.Common.{
  ℕ, ◌+◌, ◌≤◌, ◌≡◌, refl, some, List, [], ◌∷◌, arith, if◌then◌else◌, ltb, All, not, subst,
  Bool-cases, inl, inr,
}
use flow_ai.AgentSettings.{
  AgentSettings, Rows, put, get, consume_token_budget, reset_tokens, charged,
}

-- A request for tokens at a time.
pub record Charge : Type 0 where
  pub tokens : ℕ
  pub now : ℕ

-- The tokens granted in turn, and the table afterwards.
pub consume_all : ℕ → List Charge → Rows → ℕ × Rows
consume_all org [] rows = (0, rows)
consume_all org (c ∷ cs) rows =
    let (budget, rows') = consume_token_budget org c.tokens c.now rows in
    let (granted, rows'') = consume_all org cs rows' in
    ((if budget.allowed then c.tokens else 0) + granted, rows'')

-- The row within its budget up to a time at which the count is reset.
pub record Within (org reset max used : ℕ) (rows : Rows) : Type 0 where
  pub row : AgentSettings
  pub stored : rows org ≡ some row
  pub resets : row.tokens_reset_at ≡ some reset
  pub limit : row.max_tokens_per_day ≡ max
  pub count : row.tokens_used_today ≡ used
  pub bound : used ≤ max

get-some :
    (org : ℕ) (rows : Rows) (s : AgentSettings) → rows org ≡ some s → get org rows ≡ (s, rows)
unfolding get
get-some org rows s e = rw (e, get) refl

reset_early :
    (now reset : ℕ) (s : AgentSettings)
    → s.tokens_reset_at ≡ some reset
    → now ≤ reset
    → reset_tokens now s ≡ s
reset_early now reset s e h = ground arith

-- The answer and the table, before the time of the reset.
consume-early :
    (org tokens now reset : ℕ) (rows : Rows) (s : AgentSettings)
    → rows org ≡ some s
    → s.tokens_reset_at ≡ some reset
    → now ≤ reset
    → let denied = ltb s.max_tokens_per_day (s.tokens_used_today + tokens) in
      ((consume_token_budget org tokens now rows).0.allowed ≡ not denied)
      × ((consume_token_budget org tokens now rows).1
          ≡ put org (if denied then s else charged tokens s) rows)
unfolding consume_token_budget
consume-early org tokens now reset rows s e r h =
    rw (consume_token_budget, get-some org rows s e, reset_early now reset s r h) (ground arith)

consume-Within :
    (org reset max used tokens now : ℕ) (rows : Rows)
    → now ≤ reset
    → Within org reset max used rows
    → Within org reset max
        (used + (if (consume_token_budget org tokens now rows).0.allowed then tokens else 0))
        (consume_token_budget org tokens now rows).1
consume-Within org reset max used tokens now rows early w =
    let s = w.row in
    let (reply, table) = consume-early org tokens now reset rows s w.stored w.resets early in
    elim (Bool-cases (ltb s.max_tokens_per_day (s.tokens_used_today + tokens))) [
      | inl d ↦
          rw (reply, table, d)
            (record {
              row = s;
              stored = ground arith;
              resets = w.resets;
              limit = w.limit;
              count = ground (arith, w.count);
              bound = omega (arith, w.bound);
            })
      | inr d ↦
          rw (reply, table, d)
            (record {
              row = charged tokens s;
              stored = ground arith;
              resets = w.resets;
              limit = w.limit;
              count = ground (arith, w.count);
              bound = ground (arith, w.bound, w.count, w.limit);
            })
    ]

-- Until the time of the reset, the tokens granted to any sequence of requests, added to those
-- used before, are the count that the row then shows, and never exceed the daily limit.
pub token_limit_holds :
    (org reset max used : ℕ) (cs : List Charge) (rows : Rows)
    → All (λ c. c.now ≤ reset) cs
    → Within org reset max used rows
    → Within org reset max (used + (consume_all org cs rows).0) (consume_all org cs rows).1
unfolding consume_all
token_limit_holds org reset max used [] rows early w =
    subst (λ n. Within org reset max n rows) (omega arith) w
token_limit_holds org reset max used (c ∷ cs) rows early w =
    let (budget, rows') = consume_token_budget org c.tokens c.now rows in
    let first = if budget.allowed then c.tokens else 0 in
    let rest =
      token_limit_holds org reset max (used + first) cs rows' early.1
        (consume-Within org reset max used c.tokens c.now rows early.0 w) in
    subst (λ n. Within org reset max n (consume_all org cs rows').1) (omega arith) rest
