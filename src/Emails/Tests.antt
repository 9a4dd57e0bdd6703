-- ===== src/Emails/Tests.antt =====
-- The e-mail theorem at one automatic e-mail, one approved draft and one draft that nobody
-- approved.
use flow_ai.Common.{ℕ, true, none, some, List, [], ◌∷◌, ◌==◌, if◌then◌else◌}
use flow_ai.Database.Rows.{rows}
use flow_ai.AgentSettings.{AgentSettings, default_settings}
use flow_ai.Emails.{EmailMessage, queued, outbound}
use flow_ai.Emails.Cleared.{Request, drafts, approves, Cleared}

abbrev automatic : AgentSettings
automatic = record default_settings { auto_send_email = true; email_allowlist = 42 ∷ [] }

abbrev automatic_for_1 : ℕ → AgentSettings
automatic_for_1 org = if org == 1 then automatic else default_settings

abbrev same : ℕ → ℕ
same a = a

abbrev requests : List (Request (rows EmailMessage) same)
requests =
    drafts 1 automatic_for_1 0 42 7 8
    ∷ drafts 1 (λ org. default_settings) 0 50 7 8
    ∷ drafts 1 (λ org. default_settings) 0 51 7 8
    ∷ approves 1 1 (λ org. default_settings) 5
    ∷ []

abbrev mail : ℕ → ℕ → EmailMessage
mail to hold = record {
  organization_id = 1;
  direction = outbound;
  status = queued;
  to_address = to;
  subject = some 7;
  body_text = 8;
  hold_until = some hold;
  sent_at = none;
}
