-- ===== src/Failover/Race.antt =====
-- What the failover returns and whom it asks.
use flow_ai.Common.{
  ℕ, ◌≡◌, refl, inl, inr, Bool, false, ◌||◌, not, Option, none, some, [], ◌∷◌, arith, if◌then◌else◌,
  is_some, Bool-cases, Option-cases,
}
use flow_ai.Failover.{
  AiProvider, usable, race, race_from, available, generate_text_result, research_grounded,
  analyze_image, generate_image, generate_video, choose, chosen_available, no_key,
}

module _ {S T : Type 0} (attempt : AiProvider S → S → Option T × S) (succeeded : T → Bool)
    (given_up : T → T) where
  -- One vendor is asked: its answer if it succeeds or throws, and else what is made of its failure.
  pub ask_last : AiProvider S → S → Option T × S
  ask_last p s =
      let (answer, s') = attempt p s in
      (elim answer [ none ↦ none | some r ↦ some (if succeeded r then r else given_up r) ], s')

  -- What a request for which one vendor is enough should come to: an available primary is asked,
  -- and an available secondary only if there is no available primary, or it answered without
  -- success.
  pub one_of : T → AiProvider S → AiProvider S → S → Option T × S
  one_of unavailable p q s =
      let (answer, s') = attempt p s in
      if p.available
      then (if q.available
          then elim answer [
            | none ↦ (none, s')
            | some r ↦ if succeeded r then (some r, s') else ask_last q s'
          ]
          else ask_last p s)
      else if q.available
      then ask_last q s
      else (some unavailable, s)

  race_one :
      (exhausted : Option T → T) (v : AiProvider S) (before : Option T) (s : S)
      → ((r : T) → exhausted (some r) ≡ given_up r)
      → race_from attempt succeeded exhausted (v ∷ []) before s ≡ ask_last v s
  unfolding race_from ask_last
  race_one exhausted v before s last = elim (Option-cases (attempt v s).0) [
    | inl e ↦ ground arith
    | inr (r, e) ↦ elim (Bool-cases (succeeded r)) [
      | inl fine ↦ ground arith
      | inr failed_ ↦ ground (arith, last r)
    ]
  ]

  race_two :
      (exhausted : Option T → T) (v u : AiProvider S) (s : S)
      → ((r : T) → exhausted (some r) ≡ given_up r)
      → race_from attempt succeeded exhausted (v ∷ u ∷ []) none s ≡ elim (attempt v s).0 [
        | none ↦ (none, (attempt v s).1)
        | some r ↦ if succeeded r then (some r, (attempt v s).1) else ask_last u (attempt v s).1
      ]
  unfolding race_from
  race_two exhausted v u s last = elim (Option-cases (attempt v s).0) [
    | inl e ↦ ground arith
    | inr (r, e) ↦ elim (Bool-cases (succeeded r)) [
      | inl fine ↦ ground arith
      | inr failed_ ↦ ground (arith, race_one exhausted u (some r) (attempt v s).1 last)
    ]
  ]

  race-usable :
      (exhausted : Option T → T) (unavailable : T) (p q : AiProvider S) (s : S)
      → ((r : T) → exhausted (some r) ≡ given_up r)
      → (if available p q
          then race attempt succeeded exhausted (usable p q) s
          else (some unavailable, s))
        ≡ one_of unavailable p q s
  unfolding race usable available one_of
  race-usable exhausted unavailable p q s last = elim (Bool-cases p.available) [
    | inl up ↦ elim (Bool-cases q.available) [
      | inl too ↦ ground (arith, race_two exhausted p q s last)
      | inr alone ↦ ground (arith, race_one exhausted p none s last)
    ]
    | inr down ↦ elim (Bool-cases q.available) [
      | inl up ↦ ground (arith, race_one exhausted q none s last)
      | inr neither ↦ ground arith
    ]
  ]

module _ {S : Type 0} (p q : AiProvider S) where
  -- Each request to the failover is answered by an available vendor, the primary before the
  -- secondary. The secondary is asked, in the world that the primary left, only if the primary is
  -- not available or has answered without success: for a text an error, for a video a failure, and
  -- for research, vision and images also an empty answer. A vendor that throws ends the request. If
  -- both fail, a text or a video gets the failure of the last one asked, and the others nothing;
  -- without an available vendor none is asked.
  pub failover_order :
      (prompt bytes mime_type max_wait_ms : ℕ) (s : S)
      → (generate_text_result p q prompt s
          ≡ one_of
              (λ v. v.generate_text_result prompt)
              (λ r. not (is_some r.error))
              (λ r. r)
              (record { text = none; error = some no_key })
              p
              q
              s)
        × (research_grounded p q prompt s
            ≡ one_of
                (λ v. v.research_grounded prompt)
                (λ r. elim r [ none ↦ false | some g ↦ is_some g.text ])
                (λ _. none)
                none
                p
                q
                s)
        × (analyze_image p q bytes mime_type prompt s
            ≡ one_of (λ v. v.analyze_image bytes mime_type prompt) is_some (λ _. none) none p q s)
        × (generate_image p q prompt s
            ≡ one_of
                (λ v. v.generate_image prompt)
                (λ r. elim r [ none ↦ false | some m ↦ is_some m.bytes ])
                (λ _. none)
                none
                p
                q
                s)
        × (generate_video p q prompt bytes max_wait_ms s
            ≡ one_of
                (λ v. v.generate_video prompt bytes max_wait_ms)
                (λ r. r.ok)
                (λ r. r)
                (record { ok = false; reason = some no_key })
                p
                q
                s)
  unfolding generate_text_result research_grounded analyze_image generate_image generate_video
  failover_order prompt bytes mime_type max_wait_ms s = (
    race-usable _ _ _ _ _ p q s (λ r. refl),
    race-usable _ _ _ _ _ p q s (λ r. refl),
    race-usable _ _ _ _ _ p q s (λ r. refl),
    race-usable _ _ _ _ _ p q s (λ r. refl),
    race-usable _ _ _ _ _ p q s (λ r. refl),
  )

-- The factory hands out an available provider if there is one, whatever the settings.
pub chosen_available_iff :
    {S : Type 0} (wants_openai failover_enabled : Bool) (gemini openai : AiProvider S)
    → chosen_available (choose wants_openai failover_enabled gemini openai)
      ≡ (gemini.available || openai.available)
unfolding choose available
chosen_available_iff wants_openai failover_enabled gemini openai = ground arith
