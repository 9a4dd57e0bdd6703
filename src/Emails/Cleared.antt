-- ===== src/Emails/Cleared.antt =====
-- Which e-mails the server sends, over any sequence of drafts, approvals, cancellations and ticks
-- of the sender.
use flow_ai.Common.{
  Option, ℕ, ◌≡◌, Bool, true, false, ◌&&◌, ◌||◌, some, List, [], ◌∷◌, includes, ◌==◌, if◌then◌else◌,
  All, Result, ok, failed,
}
use flow_ai.Database.{Table}
use flow_ai.AgentSettings.{AgentSettings}
use flow_ai.Emails.{
  EmailMessage, is_queued, is_due, sends_itself, DraftReply, draft_email, approve_email,
  cancel_email, send_due, email,
}

module _ (emails : Table EmailMessage) (lower_case : ℕ → ℕ) where
  -- The consent of an organization to an e-mail: the recipient was on its allow-list when the
  -- e-mail was drafted, or somebody of it approved the e-mail.
  pub data Consent : Type 0 where
    listed approved : (org id : ℕ) → Consent

  abbrev is_about : ℕ → ℕ → Consent → Bool
  is_about org i (listed o j) = o == org && j == i
  is_about org i (approved o j) = o == org && j == i

  pub has_consent : ℕ → ℕ → List Consent → Bool
  has_consent org i [] = false
  has_consent org i (c ∷ cs) = is_about org i c || has_consent org i cs

  -- Every queued e-mail has the consent of its organization.
  unfoldable pub Cleared : List Consent → emails.State → Type 0
  Cleared log s =
      (i : ℕ) (r : EmailMessage)
      → emails.find s i ≡ some r
      → is_queued r.status ≡ true
      → has_consent r.organization_id i log ≡ true

  -- Consent that a draft carries: sent automatically, to a recipient of the allow-list.
  unfoldable pub consent_of_draft : ℕ → AgentSettings → ℕ → DraftReply → List Consent → List Consent
  consent_of_draft org settings to (email i status) log =
      if sends_itself settings && includes (lower_case to) settings.email_allowlist
      then listed org i ∷ log
      else log
  consent_of_draft org settings to _ log = log

  -- Consent that an approval gives, unless it is refused.
  abbrev pub consent_of_approval {ℓ} : {A : Type ℓ} → ℕ → ℕ → Result A → List Consent → List Consent
  consent_of_approval org id (ok a) log = approved org id ∷ log
  consent_of_approval org id (failed e) log = log

  -- What findMany promises of the rows it answers.
  unfoldable pub Found : ℕ → List (ℕ × EmailMessage) → emails.State → Type 0
  Found now due s = All (λ d. (emails.find s d.0 ≡ some d.1) × (is_due now d.1 ≡ true)) due

  -- The row of an e-mail whose organization has consented to it.
  abbrev pub Consented : List Consent → emails.State → ℕ → Type 0
  Consented log s i =
      (r : EmailMessage) × (emails.find s i ≡ some r) × (has_consent r.organization_id i log ≡ true)

  pub data Request : Type 0 where
    drafts : (org : ℕ) (settings_of : ℕ → AgentSettings) (now to subject body : ℕ) → Request
    approves : (org id : ℕ) (settings_of : ℕ → AgentSettings) (now : ℕ) → Request
    cancels : (org id : ℕ) → Request
    ticks :
        (paused : ℕ → Bool) (delivers : EmailMessage → Option Bool) (now : ℕ)
        (due : List (ℕ × EmailMessage))
        → Request

  -- The consents and the table after the requests; `settings_of` is what the organizations have set
  -- by then.
  unfoldable pub run : List Request → List Consent → emails.State → List Consent × emails.State
  run [] log s = (log, s)
  run (drafts org settings_of now to subject body ∷ xs) log s =
      let (reply, s') =
        draft_email emails lower_case org (settings_of org) now
          (record { to = some to; subject = some subject; body = some body }) s in
      run xs (consent_of_draft org (settings_of org) to reply log) s'
  run (approves org id settings_of now ∷ xs) log s =
      let (reply, s') = approve_email emails org id (settings_of org) now s in
      run xs (consent_of_approval org id reply log) s'
  run (cancels org id ∷ xs) log s = run xs log (cancel_email emails org id s).1
  run (ticks paused delivers now due ∷ xs) log s =
      run xs log (send_due emails paused delivers now due s).1
