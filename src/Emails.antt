-- ===== src/Emails.antt =====
-- The outbound mail of src/modules/orchestrator/orchestrator.service.ts, and the draft_email tool
-- of src/modules/agents/agent-executor.service.ts that writes it.
pub mod Cleared
pub mod Tests
use flow_ai.Common.{
  or_default, is_some, ℕ, ◌+◌, ◌*◌, Bool, true, false, ◌&&◌, ◌||◌, not, Option, none, some, List,
  [], ◌∷◌, includes, is_empty, leb, ◌==◌, if◌then◌else◌, Result, ok, failed, not_found,
}
use flow_ai.Database.{Table}
use flow_ai.AgentSettings
use flow_ai.AgentSettings.{AgentSettings, Rows}

pub data EmailDirection : Type 0 where
  inbound outbound : EmailDirection

pub data EmailStatus : Type 0 where
  received triaged drafted queued sent send_failed cancelled : EmailStatus

pub record EmailMessage : Type 0 where
  pub organization_id : ℕ
  pub direction : EmailDirection
  pub status : EmailStatus
  pub to_address : ℕ
  pub subject : Option ℕ
  pub body_text : ℕ
  pub hold_until : Option ℕ
  pub sent_at : Option ℕ

abbrev pub is_outbound : EmailDirection → Bool
is_outbound inbound = false
is_outbound outbound = true

abbrev pub is_queued : EmailStatus → Bool
is_queued queued = true
is_queued _ = false

abbrev pub is_sent : EmailStatus → Bool
is_sent sent = true
is_sent _ = false

abbrev pub minute_ms : ℕ
minute_ms = 60000

pub record Draft : Type 0 where
  pub to : Option ℕ
  pub subject : Option ℕ
  pub body : Option ℕ

pub data DraftReply : Type 0 where
  incomplete not_on_allowlist : DraftReply
  email : ℕ → EmailStatus → DraftReply

-- auto_send && allowlist.length > 0
abbrev pub sends_itself : AgentSettings → Bool
sends_itself s = s.auto_send_email && not (is_empty s.email_allowlist)

-- `lower_case` is String.prototype.toLowerCase.
module _ (emails : Table EmailMessage) (lower_case : ℕ → ℕ) (org : ℕ) where
  abbrev pub row_of : AgentSettings → ℕ → ℕ → ℕ → ℕ → EmailMessage
  row_of settings now to subject body = record {
    organization_id = org;
    direction = outbound;
    status = if sends_itself settings then queued else drafted;
    to_address = to;
    subject = some subject;
    body_text = body;
    hold_until =
        if sends_itself settings
        then some (now + settings.email_hold_minutes * minute_ms)
        else none;
    sent_at = none;
  }

  pub write_email : AgentSettings → ℕ → ℕ → ℕ → ℕ → emails.State → DraftReply × emails.State
  write_email settings now to subject body s =
      let row = row_of settings now to subject body in
      let (id, s') = emails.create s row in
      if not (is_empty settings.email_allowlist)
        && not (includes (lower_case to) settings.email_allowlist)
      then (not_on_allowlist, s)
      else (email id row.status, s')

  pub draft_email : AgentSettings → ℕ → Draft → emails.State → DraftReply × emails.State
  draft_email settings now draft s = elim draft.to [
    | none ↦ (incomplete, s)
    | some to ↦ elim draft.subject [
      | none ↦ (incomplete, s)
      | some subject ↦ elim draft.body [
        | none ↦ (incomplete, s)
        | some body ↦ write_email settings now to subject body s
      ]
    ]
  ]

abbrev pub owned : ℕ → ℕ → ℕ → EmailMessage → Bool
owned org email_id i r = i == email_id && r.organization_id == org

-- The where clause of sendQueuedEmails.
abbrev pub is_due : ℕ → EmailMessage → Bool
is_due now r =
    is_outbound r.direction
    && is_queued r.status
    && elim r.hold_until [ none ↦ false | some t ↦ leb t now ]

abbrev pub after_sending : Bool → ℕ → EmailMessage → EmailMessage
after_sending success now r =
    if success
    then record r { status = sent; sent_at = some now }
    else record r { status = send_failed }

module _ (emails : Table EmailMessage) where
  pub approve_email :
      ℕ → ℕ → AgentSettings → ℕ → emails.State → Result (Option EmailMessage) × emails.State
  approve_email org email_id settings now s =
      let f = λ (r : EmailMessage). record r {
        status = queued;
        hold_until = some (now + settings.email_hold_minutes * minute_ms);
      } in
      elim (emails.find_first s (owned org email_id)) [
        | none ↦ (failed not_found, s)
        | some _ ↦ let (row, s') = emails.update s email_id f in (ok row, s')
      ]

  pub cancel_email : ℕ → ℕ → emails.State → Result (Option EmailMessage) × emails.State
  cancel_email org email_id s = elim (emails.find_first s (owned org email_id)) [
    | none ↦ (failed not_found, s)
    | some (i, r) ↦
        let (row, s') = emails.update s email_id (λ q. record q { status = cancelled }) in
        if is_sent r.status then (ok (some r), s) else (ok row, s')
  ]

  -- The e-mails that findMany found, in turn: `paused` is what isChannelPaused answers for the
  -- organization and `delivers` whether channelsService.publish succeeds, or none if it throws,
  -- which ends the tick. Also the ids of the e-mails handed to publish.
  pub send_due :
      (paused : ℕ → Bool) (delivers : EmailMessage → Option Bool) (now : ℕ)
      → List (ℕ × EmailMessage)
      → emails.State
      → List ℕ × emails.State
  send_due paused delivers now [] s = ([], s)
  send_due paused delivers now ((i, r) ∷ due) s =
      let success = or_default (delivers r) false in
      let s' =
        if paused r.organization_id then s else (emails.update s i (after_sending success now)).1 in
      let (handed, s'') = send_due paused delivers now due s' in
      if paused r.organization_id
      then (handed, s'')
      else if is_some (delivers r)
      then (i ∷ handed, s'')
      else (i ∷ [], s)
