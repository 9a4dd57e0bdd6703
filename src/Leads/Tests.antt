-- ===== src/Leads/Tests.antt =====
-- The theorems on leads at a lead of organization 1 and one of organization 2.
use flow_ai.Common.{ℕ, Bool, false, Option, none, some, List, [], ◌∷◌}
use flow_ai.Database.Rows.{rows}
use flow_ai.Database.Ownership.{Isolated}
use flow_ai.Leads.{Lead, CreateLeadDto, UpdateLeadDto, new, won, other, cold_call}
use flow_ai.Leads.Isolation.{Request, creates, updates, deletes, run, leads-Isolated}

abbrev cold : CreateLeadDto
cold = record {
  company_name = 1;
  contact_name = 2;
  email = some 3;
  source = some cold_call;
  stage = none;
  value = some 30000;
  probability = some 1;
  expected_close_date = none;
}

abbrev any_host : ℕ → Bool
any_host e = false

abbrev lead_of : ℕ → Lead
lead_of org = record {
  organization_id = org;
  created_by_id = 0;
  company_name = 1;
  contact_name = 2;
  email = none;
  source = other;
  stage = new;
  value = none;
  probability = some 0;
  expected_close_date = none;
  closed_at = none;
  lost_reason = none;
  ai_score = 50;
}

abbrev win : UpdateLeadDto
win = record {
  company_name = none;
  contact_name = none;
  email = none;
  source = none;
  stage = some won;
  value = none;
  probability = none;
  expected_close_date = none;
  lost_reason = none;
}

abbrev table : List (Option Lead)
table = some (lead_of 1) ∷ some (lead_of 2) ∷ []

-- Organization 1 wins its own lead, tries to win and to delete the other, and makes one.
abbrev requests : List Request
requests = updates 0 win 9 ∷ updates 1 win 9 ∷ deletes 1 ∷ creates 0 cold ∷ []

leads-Isolated_example :
    Isolated
      (rows Lead)
      (λ r. r.organization_id)
      1
      table
      (run (rows Lead) any_host 1 requests table)
leads-Isolated_example = leads-Isolated (rows Lead) any_host 1 requests table
