-- ===== src/Failover.antt =====
-- src/modules/content/providers/failover.provider.ts and ai-provider.factory.ts: two AI vendors,
-- the second tried when the first fails. A vendor is a parameter: whether it is available, and
-- for each request what it answers, or none if it throws, and how the world is afterwards (what it
-- billed). Texts, errors and media are opaque; an empty one, which is falsy, is `none`.
pub mod Race
pub mod Tests
use flow_ai.Common.{
  ℕ, Bool, true, false, ◌&&◌, not, Option, none, some, or_default, is_some, List, [], ◌∷◌,
  if◌then◌else◌, is_empty,
}

pub record TextResult : Type 0 where
  pub text : Option ℕ
  pub error : Option ℕ

pub record GroundedResult : Type 0 where
  pub text : Option ℕ
  pub sources : List ℕ

pub record Media : Type 0 where
  pub bytes : Option ℕ
  pub mime_type : ℕ

pub record VideoOutcome : Type 0 where
  pub ok : Bool
  pub reason : Option ℕ

-- The AiProvider interface, over the state of the outside world.
pub record AiProvider (S : Type 0) : Type 0 where
  pub available : Bool
  pub generate_text_result : ℕ → S → Option TextResult × S
  pub research_grounded : ℕ → S → Option (Option GroundedResult) × S
  pub analyze_image : ℕ → ℕ → ℕ → S → Option (Option ℕ) × S
  pub generate_image : ℕ → S → Option (Option Media) × S
  pub generate_video : ℕ → ℕ → ℕ → S → Option VideoOutcome × S

abbrev keep_usable : {S : Type 0} → AiProvider S → List (AiProvider S) → List (AiProvider S)
keep_usable p ps = if p.available then p ∷ ps else ps

-- The configured vendors, primary first.
unfoldable pub usable : {S : Type 0} → AiProvider S → AiProvider S → List (AiProvider S)
usable primary secondary = keep_usable primary (keep_usable secondary [])

module _ {S T : Type 0} (attempt : AiProvider S → S → Option T × S) (succeeded : T → Bool)
    (exhausted : Option T → T) where
  -- An attempt that throws ends the loop.
  unfoldable pub race_from : List (AiProvider S) → Option T → S → Option T × S
  race_from [] last s = (some (exhausted last), s)
  race_from (p ∷ ps) last s =
      let (answer, s') = attempt p s in
      let rest = race_from ps answer s' in
      elim answer [
        | none ↦ (none, s')
        | some result ↦ if succeeded result then (some result, s') else rest
      ]

  -- Runs `attempt` against each vendor until one succeeds.
  unfoldable pub race : List (AiProvider S) → S → Option T × S
  unfolding race_from
  race ps s = race_from ps none s

-- The two messages for want of a vendor.
abbrev pub no_key : ℕ
no_key = 1

abbrev pub none_available : ℕ
none_available = 2

module _ {S : Type 0} (primary secondary : AiProvider S) where
  pub available : Bool
  unfolding usable
  available = not (is_empty (usable primary secondary))

  pub generate_text_result : ℕ → S → Option TextResult × S
  generate_text_result prompt s =
      if available
      then race (λ p. p.generate_text_result prompt) (λ r. not (is_some r.error))
          (λ last. or_default last (record { text = none; error = some none_available }))
          (usable primary secondary) s
      else (some (record { text = none; error = some no_key }), s)

  pub research_grounded : ℕ → S → Option (Option GroundedResult) × S
  research_grounded prompt s =
      if available
      then race (λ p. p.research_grounded prompt)
          (λ r. elim r [ none ↦ false | some g ↦ is_some g.text ]) (λ _. none)
          (usable primary secondary) s
      else (some none, s)

  pub analyze_image : ℕ → ℕ → ℕ → S → Option (Option ℕ) × S
  analyze_image bytes mime_type instruction s =
      if available
      then race (λ p. p.analyze_image bytes mime_type instruction) is_some (λ _. none)
          (usable primary secondary) s
      else (some none, s)

  pub generate_image : ℕ → S → Option (Option Media) × S
  generate_image prompt s =
      if available
      then race (λ p. p.generate_image prompt)
          (λ r. elim r [ none ↦ false | some m ↦ is_some m.bytes ]) (λ _. none)
          (usable primary secondary) s
      else (some none, s)

  pub generate_video : ℕ → ℕ → ℕ → S → Option VideoOutcome × S
  generate_video prompt destination max_wait_ms s =
      if available
      then race (λ p. p.generate_video prompt destination max_wait_ms) (λ r. r.ok)
          (λ last. or_default last (record { ok = false; reason = some none_available }))
          (usable primary secondary) s
      else (some (record { ok = false; reason = some no_key }), s)

-- What the factory hands out.
pub data Chosen (S : Type 0) : Type 0 where
  single : AiProvider S → Chosen S
  failover : AiProvider S → AiProvider S → Chosen S

pub choose :
    {S : Type 0} (wants_openai failover_enabled : Bool) (gemini openai : AiProvider S) → Chosen S
choose wants_openai failover_enabled gemini openai =
    let preferred = if wants_openai then openai else gemini in
    let other = if wants_openai then gemini else openai in
    if preferred.available && other.available && failover_enabled
    then failover preferred other
    else if preferred.available
    then single preferred
    else if other.available
    then single other
    else single preferred

abbrev pub chosen_available : {S : Type 0} → Chosen S → Bool
chosen_available (single p) = p.available
chosen_available (failover p q) = available p q
