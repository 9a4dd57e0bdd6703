-- ===== src/AgentSettings.antt =====
-- src/modules/agent-settings/agent-settings.service.ts: the safety rails of an organization's
-- agents. The table has at most one row for an organization (organizationId is unique), so it is
-- a function; times are milliseconds.
pub mod Laws
pub mod TokenBudget
pub mod Tests
use flow_ai.Common.{
  ℕ, ◌+◌, ◌*◌, ◌-◌, Bool, true, false, ◌&&◌, ◌||◌, not, Option, none, some, or_default, List, [],
  ◌∷◌, ltb, leb, ◌==◌, if◌then◌else◌, is_empty, Result, ok, failed, bad_request,
}

pub data PublishChannel : Type 0 where
  instagram linkedin email website : PublishChannel

abbrev pub same_channel : PublishChannel → PublishChannel → Bool
same_channel instagram instagram = true
same_channel linkedin linkedin = true
same_channel email email = true
same_channel website website = true
same_channel _ _ = false

-- `channels.includes(c)`
abbrev pub has_channel : PublishChannel → List PublishChannel → Bool
has_channel c [] = false
has_channel c (d ∷ ds) = same_channel d c || has_channel c ds

pub record AgentSettings : Type 0 where
  pub kill_switch : Bool
  pub autonomy_enabled : Bool
  pub paused_channels : List PublishChannel
  pub max_posts_per_day : ℕ
  pub max_agent_steps_per_run : ℕ
  pub max_tokens_per_day : ℕ
  pub tokens_used_today : ℕ
  pub tokens_reset_at : Option ℕ
  pub email_hold_minutes : ℕ
  pub auto_send_email : Bool
  pub email_allowlist : List ℕ
  pub daily_plan_hour : ℕ

abbrev pub default_settings : AgentSettings
default_settings = record {
  kill_switch = false;
  autonomy_enabled = true;
  paused_channels = [];
  max_posts_per_day = 3;
  max_agent_steps_per_run = 8;
  max_tokens_per_day = 500000;
  tokens_used_today = 0;
  tokens_reset_at = none;
  email_hold_minutes = 10;
  auto_send_email = false;
  email_allowlist = [];
  daily_plan_hour = 7;
}

abbrev pub Rows : Type 0
Rows = ℕ → Option AgentSettings

abbrev pub put : ℕ → AgentSettings → Rows → Rows
put org s rows j = if org == j then some s else rows j

-- upsert: the row, made with the defaults if it is missing
unfoldable pub get : ℕ → Rows → AgentSettings × Rows
get org rows = elim (rows org) [
  | none ↦ (default_settings, put org default_settings rows)
  | some s ↦ (s, rows)
]

pub record Patch : Type 0 where
  pub kill_switch : Option Bool
  pub autonomy_enabled : Option Bool
  pub paused_channels : Option (List PublishChannel)
  pub max_posts_per_day : Option ℕ
  pub max_agent_steps_per_run : Option ℕ
  pub max_tokens_per_day : Option ℕ
  pub email_hold_minutes : Option ℕ
  pub auto_send_email : Option Bool
  pub email_allowlist : Option (List ℕ)
  pub daily_plan_hour : Option ℕ

-- What prisma.update writes for a partial record: a field that is undefined stays.
abbrev pub patched : Patch → AgentSettings → AgentSettings
patched d s = record {
  kill_switch = or_default d.kill_switch s.kill_switch;
  autonomy_enabled = or_default d.autonomy_enabled s.autonomy_enabled;
  paused_channels = or_default d.paused_channels s.paused_channels;
  max_posts_per_day = or_default d.max_posts_per_day s.max_posts_per_day;
  max_agent_steps_per_run = or_default d.max_agent_steps_per_run s.max_agent_steps_per_run;
  max_tokens_per_day = or_default d.max_tokens_per_day s.max_tokens_per_day;
  tokens_used_today = s.tokens_used_today;
  tokens_reset_at = s.tokens_reset_at;
  email_hold_minutes = or_default d.email_hold_minutes s.email_hold_minutes;
  auto_send_email = or_default d.auto_send_email s.auto_send_email;
  email_allowlist = or_default d.email_allowlist s.email_allowlist;
  daily_plan_hour = or_default d.daily_plan_hour s.daily_plan_hour;
}

pub update : ℕ → Patch → Rows → Result AgentSettings × Rows
unfolding get
update org changes rows =
    let (current, rows') = get org rows in
    let next_auto_send = or_default changes.auto_send_email current.auto_send_email in
    let next_allowlist = or_default changes.email_allowlist current.email_allowlist in
    if next_auto_send && is_empty next_allowlist
    then (failed bad_request, rows')
    else (ok (patched changes current), put org (patched changes current) rows')

unfoldable pub is_halted : ℕ → Rows → Bool × Rows
is_halted org rows = let (s, rows') = get org rows in (s.kill_switch, rows')

pub is_channel_paused : ℕ → PublishChannel → Rows → Bool × Rows
is_channel_paused org channel rows =
    let (s, rows') = get org rows in (s.kill_switch || has_channel channel s.paused_channels, rows')

pub record Budget : Type 0 where
  pub allowed : Bool
  pub remaining : ℕ

abbrev pub day_ms : ℕ
day_ms = 86400000

abbrev expired : Option ℕ → ℕ → Bool
expired none now = true
expired (some t) now = ltb t now

abbrev pub reset_tokens : ℕ → AgentSettings → AgentSettings
reset_tokens now s =
    if expired s.tokens_reset_at now
    then record s { tokens_used_today = 0; tokens_reset_at = some (now + day_ms) }
    else s

abbrev pub charged : ℕ → AgentSettings → AgentSettings
charged tokens s = record s { tokens_used_today = s.tokens_used_today + tokens }

-- The remainder is taken at 0 by Math.max, and where it is not the budget covers it.
unfoldable pub consume_token_budget : ℕ → ℕ → ℕ → Rows → Budget × Rows
consume_token_budget org tokens now rows =
    let (row, rows') = get org rows in
    let s = reset_tokens now row in
    if ltb s.max_tokens_per_day (s.tokens_used_today + tokens)
    then (
      record { allowed = false; remaining = s.max_tokens_per_day - s.tokens_used_today },
      put org s rows',
    )
    else (
      record {
        allowed = true;
        remaining = s.max_tokens_per_day - (charged tokens s).tokens_used_today;
      },
      put org (charged tokens s) rows',
    )

pub data Refusal : Type 0 where
  kill_switch_active : Refusal
  paused : PublishChannel → Refusal
  cap_reached : ℕ → Refusal

-- `published_today` is what prisma.count answers in postsPublishedToday.
unfoldable pub can_publish : ℕ → PublishChannel → ℕ → Rows → Option Refusal × Rows
can_publish org channel published_today rows =
    let (s, rows') = get org rows in
    if s.kill_switch
    then (some kill_switch_active, rows')
    else if has_channel channel s.paused_channels
    then (some (paused channel), rows')
    else if not (same_channel channel email) && leb s.max_posts_per_day published_today
    then (some (cap_reached s.max_posts_per_day), rows')
    else (none, rows')
