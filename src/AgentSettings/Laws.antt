-- ===== src/AgentSettings/Laws.antt =====
-- Automatic mail and the separation of organizations, over any sequence of settings operations.
use flow_ai.Common.{
  ℕ, ◌≡◌, refl, Bool, true, false, ◌&&◌, some, List, [], ◌∷◌, arith, ◌∙◌, sym, subst, ◌+◌,
  if◌then◌else◌, is_empty, ltb, Option-cases, inl, inr,
}
use flow_ai.AgentSettings.{
  AgentSettings, Rows, Patch, PublishChannel, default_settings, put, get, update, patched,
  is_halted, is_channel_paused, consume_token_budget, can_publish, reset_tokens, charged,
}

pub data Request : Type 0 where
  gets : ℕ → Request
  updates : ℕ → Patch → Request
  asks_halted : ℕ → Request
  asks_paused : ℕ → PublishChannel → Request
  consumes : ℕ → ℕ → ℕ → Request
  asks_publish : ℕ → PublishChannel → ℕ → Request

pub step : Rows → Request → Rows
step rows (gets org) = (get org rows).1
step rows (updates org changes) = (update org changes rows).1
step rows (asks_halted org) = (is_halted org rows).1
step rows (asks_paused org channel) = (is_channel_paused org channel rows).1
step rows (consumes org tokens now) = (consume_token_budget org tokens now rows).1
step rows (asks_publish org channel n) = (can_publish org channel n rows).1

pub run : Rows → List Request → Rows
run rows [] = rows
run rows (x ∷ xs) = run (step rows x) xs

-- Automatic sending to any recipient whatever.
abbrev pub open_relay : AgentSettings → Bool
open_relay s = s.auto_send_email && is_empty s.email_allowlist

abbrev pub Guarded : Rows → Type 0
Guarded rows = (org : ℕ) (s : AgentSettings) → rows org ≡ some s → open_relay s ≡ false

put-Guarded :
    (org : ℕ) (s : AgentSettings) (rows : Rows)
    → open_relay s ≡ false
    → Guarded rows
    → Guarded (put org s rows)
put-Guarded org s rows h g j r e = ground (arith, g j r)

get-Guarded : (org : ℕ) (rows : Rows) → Guarded rows → Guarded (get org rows).1
unfolding get
get-Guarded org rows g = elim (Option-cases (rows org)) [
  | inl e ↦ rw (e, get) (put-Guarded org default_settings rows refl g)
  | inr (s, e) ↦ rw (e, get) g
]

get_row-Guarded : (org : ℕ) (rows : Rows) → Guarded rows → open_relay (get org rows).0 ≡ false
unfolding get
get_row-Guarded org rows g = elim (Option-cases (rows org)) [
  | inl e ↦ rw (e, get) refl
  | inr (s, e) ↦ rw (e, get) (g org s e)
]

branch-Guarded :
    {A : Type 0} (b : Bool) (x y : A) (rows rows' : Rows)
    → Guarded rows
    → (b ≡ false → Guarded rows')
    → Guarded (if◌then◌else◌ {A = A × Rows} b (x, rows) (y, rows')).1
branch-Guarded true x y rows rows' g h = g
branch-Guarded false x y rows rows' g h = h refl

update-Guarded :
    (org : ℕ) (changes : Patch) (rows : Rows) → Guarded rows → Guarded (update org changes rows).1
unfolding update
update-Guarded org changes rows g =
    let next = patched changes (get org rows).0 in
    branch-Guarded (open_relay next) _ _ (get org rows).1 (put org next (get org rows).1)
      (get-Guarded org rows g)
      (λ e. put-Guarded org next (get org rows).1 e (get-Guarded org rows g))

reset_tokens-Guarded :
    (now : ℕ) (s : AgentSettings) → open_relay (reset_tokens now s) ≡ open_relay s
reset_tokens-Guarded now s = ground arith

consume-Guarded :
    (org tokens now : ℕ) (rows : Rows)
    → Guarded rows
    → Guarded (consume_token_budget org tokens now rows).1
unfolding consume_token_budget
consume-Guarded org tokens now rows g =
    let s = reset_tokens now (get org rows).0 in
    let kept = get-Guarded org rows g in
    let guarded : open_relay s ≡ false =
      reset_tokens-Guarded now (get org rows).0 ∙ get_row-Guarded org rows g in
    branch-Guarded (ltb s.max_tokens_per_day (s.tokens_used_today + tokens)) _ _
      (put org s (get org rows).1) (put org (charged tokens s) (get org rows).1)
      (put-Guarded org s _ guarded kept) (λ _. put-Guarded org (charged tokens s) _ guarded kept)

publish-rows :
    (org : ℕ) (channel : PublishChannel) (n : ℕ) (rows : Rows)
    → (can_publish org channel n rows).1 ≡ (get org rows).1
unfolding can_publish
publish-rows org channel n rows = ground arith

step-Guarded : (rows : Rows) (x : Request) → Guarded rows → Guarded (step rows x)
unfolding step is_halted is_channel_paused
step-Guarded rows (gets org) g = get-Guarded org rows g
step-Guarded rows (updates org changes) g = update-Guarded org changes rows g
step-Guarded rows (asks_halted org) g = get-Guarded org rows g
step-Guarded rows (asks_paused org channel) g = get-Guarded org rows g
step-Guarded rows (consumes org tokens now) g = consume-Guarded org tokens now rows g
step-Guarded rows (asks_publish org channel n) g =
    subst Guarded (sym (publish-rows org channel n rows)) (get-Guarded org rows g)

-- No sequence of operations on settings rows without open relay, the empty table among them,
-- makes a row that sends mail automatically with an empty allow-list.
pub run-Guarded : (rows : Rows) (xs : List Request) → Guarded rows → Guarded (run rows xs)
unfolding run
run-Guarded rows [] g = g
run-Guarded rows (x ∷ xs) g = run-Guarded (step rows x) xs (step-Guarded rows x g)
