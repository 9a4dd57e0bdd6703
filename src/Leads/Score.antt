-- ===== src/Leads/Score.antt =====
-- The score of a new lead.
use flow_ai.Common.{ℕ, ◌≤◌, Bool, Option, none, some, arith}
use flow_ai.Leads.{CreateLeadDto, LeadSource, ai_score, probability_loss, source_loss}

loss-le : (p : Option ℕ) → probability_loss p ≤ 24
loss-le none = omega arith
loss-le (some p) = ground arith

source_loss-le : (s : Option LeadSource) → source_loss s ≤ 10
source_loss-le s = ground arith

-- The score of a new lead is between 16 and 100: only the upper clamp can ever cut.
pub score_in_range :
    (is_free_email : ℕ → Bool) (dto : CreateLeadDto)
    → (16 ≤ ai_score is_free_email dto) × (ai_score is_free_email dto ≤ 100)
unfolding ai_score
score_in_range is_free_email dto =
    (omega (arith, loss-le dto.probability, source_loss-le dto.source), omega arith)
