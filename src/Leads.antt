-- ===== src/Leads.antt =====
-- src/modules/leads/leads.service.ts: the sales pipeline. Amounts and probabilities are natural
-- numbers here; the form's validation also lets negative numbers and fractions through.
pub mod Score
pub mod Isolation
pub mod Tests
use flow_ai.Common.{
  ℕ, ◌+◌, ◌-◌, ◌/◌, min, Bool, true, false, ◌&&◌, ◌||◌, not, Option, none, some, or_else,
  or_default, ltb, leb, ◌==◌, if◌then◌else◌, Result, ok, failed, not_found,
}
use flow_ai.Database.{Table}

pub data LeadStage : Type 0 where
  new contacted qualified proposal_sent negotiation won lost : LeadStage

pub data LeadSource : Type 0 where
  website referral social_media cold_call email advertisement other : LeadSource

pub record Lead : Type 0 where
  pub organization_id : ℕ
  pub created_by_id : ℕ
  pub company_name : ℕ
  pub contact_name : ℕ
  pub email : Option ℕ
  pub source : LeadSource
  pub stage : LeadStage
  pub value : Option ℕ
  pub probability : Option ℕ
  pub expected_close_date : Option ℕ
  pub closed_at : Option ℕ
  pub lost_reason : Option ℕ
  pub ai_score : ℕ

pub record CreateLeadDto : Type 0 where
  pub company_name : ℕ
  pub contact_name : ℕ
  pub email : Option ℕ
  pub source : Option LeadSource
  pub stage : Option LeadStage
  pub value : Option ℕ
  pub probability : Option ℕ
  pub expected_close_date : Option ℕ

pub record UpdateLeadDto : Type 0 where
  pub company_name : Option ℕ
  pub contact_name : Option ℕ
  pub email : Option ℕ
  pub source : Option LeadSource
  pub stage : Option LeadStage
  pub value : Option ℕ
  pub probability : Option ℕ
  pub expected_close_date : Option ℕ
  pub lost_reason : Option ℕ

-- The points that create adds to the score and those that it takes off, apart.
abbrev pub value_points : Option ℕ → ℕ
value_points none = 0
value_points (some v) =
    if ltb 20000 v then 15 else if ltb 10000 v then 10 else if ltb 5000 v then 5 else 0

-- Math.round((p - 50) / 2): halves go up. A probability of 0 is falsy.
abbrev pub probability_gain : Option ℕ → ℕ
probability_gain none = 0
probability_gain (some p) = if ltb 50 p then (p - 50 + 1) / 2 else 0

abbrev pub probability_loss : Option ℕ → ℕ
probability_loss none = 0
probability_loss (some p) = if p == 0 then 0 else if ltb p 50 then (50 - p) / 2 else 0

abbrev pub source_gain : Option LeadSource → ℕ
source_gain (some referral) = 15
source_gain (some website) = 10
source_gain (some email) = 5
source_gain _ = 0

abbrev pub source_loss : Option LeadSource → ℕ
source_loss (some cold_call) = 10
source_loss _ = 0

-- `is_free_email` is the test of the address against the free mail hosts.
abbrev pub email_points : (ℕ → Bool) → Option ℕ → ℕ
email_points is_free_email none = 0
email_points is_free_email (some e) = if is_free_email e then 0 else 15

pub ai_score : (ℕ → Bool) → CreateLeadDto → ℕ
ai_score is_free_email dto =
    let gains =
      50
      + value_points dto.value
      + probability_gain dto.probability
      + source_gain dto.source
      + email_points is_free_email dto.email in
    let losses = probability_loss dto.probability + source_loss dto.source in
    min 100 (gains - losses)

abbrev pub closes : Option LeadStage → Bool
closes (some won) = true
closes (some lost) = true
closes _ = false

-- A value of 0 is not stored.
abbrev pub stored_value : Option ℕ → Option ℕ
stored_value none = none
stored_value (some v) = if v == 0 then none else some v

abbrev pub changed : ℕ → UpdateLeadDto → Lead → Lead
changed now dto r = record {
  organization_id = r.organization_id;
  created_by_id = r.created_by_id;
  company_name = or_default dto.company_name r.company_name;
  contact_name = or_default dto.contact_name r.contact_name;
  email = or_else dto.email r.email;
  source = or_default dto.source r.source;
  stage = or_default dto.stage r.stage;
  value = or_else dto.value r.value;
  probability = or_else dto.probability r.probability;
  expected_close_date = or_else dto.expected_close_date r.expected_close_date;
  closed_at = if closes dto.stage then some now else r.closed_at;
  lost_reason = or_else dto.lost_reason r.lost_reason;
  ai_score = r.ai_score;
}

module _ (leads : Table Lead) where
  pub create : (ℕ → Bool) → ℕ → ℕ → CreateLeadDto → leads.State → ℕ × leads.State
  create is_free_email org user dto s = leads.create s (record {
    organization_id = org;
    created_by_id = user;
    company_name = dto.company_name;
    contact_name = dto.contact_name;
    email = dto.email;
    source = or_default dto.source other;
    stage = or_default dto.stage new;
    value = stored_value dto.value;
    probability = some (or_default dto.probability 0);
    expected_close_date = dto.expected_close_date;
    closed_at = none;
    lost_reason = none;
    ai_score = ai_score is_free_email dto;
  })

  pub find_one : ℕ → ℕ → leads.State → Result (ℕ × Lead)
  find_one org id s = elim (leads.find_first s (λ i r. i == id && r.organization_id == org)) [
    | none ↦ failed not_found
    | some x ↦ ok x
  ]

  pub update : ℕ → ℕ → UpdateLeadDto → ℕ → leads.State → Result (Option Lead) × leads.State
  update org id dto now s =
      let (row, s') = leads.update s id (changed now dto) in
      elim (find_one org id s) [ failed e ↦ (failed e, s) | ok _ ↦ (ok row, s') ]

  pub delete : ℕ → ℕ → leads.State → Result ℕ × leads.State
  delete org id s =
      let s' = leads.delete_many s (λ i _. i == id) in
      elim (find_one org id s) [ failed e ↦ (failed e, s) | ok _ ↦ (ok id, s') ]
