-- ===== src/Failover/Tests.antt =====
-- The failover theorems at a vendor out of credit and a vendor that answers; the world counts the
-- requests that were billed.
use flow_ai.Common.{ℕ, ◌≡◌, ◌+◌, Bool, true, false, none, some, is_some, not}
use flow_ai.Failover.{
  AiProvider, TextResult, generate_text_result, research_grounded, analyze_image, generate_image,
  generate_video, no_key,
}
use flow_ai.Failover.Race.{one_of, failover_order}

abbrev fails_with : ℕ → TextResult
fails_with e = record { text = none; error = some e }

abbrev vendor : Bool → TextResult → AiProvider ℕ
vendor up result = record {
  available = up;
  generate_text_result = λ _ s. (some result, s + 1);
  research_grounded = λ _ s. (some none, s + 1);
  analyze_image = λ _ _ _ s. (some none, s + 1);
  generate_image = λ _ s. (some none, s + 1);
  generate_video = λ _ _ _ s. (some (record { ok = false; reason = some 9 }), s + 1);
}

abbrev gemini : AiProvider ℕ
gemini = vendor true (fails_with 402)

abbrev openai : AiProvider ℕ
openai = vendor true (record { text = some 7; error = none })

-- The secondary's text comes second, in a world that the primary has billed.
failover_order_example :
    (generate_text_result gemini openai 3 0
      ≡ one_of
          (λ v. v.generate_text_result 3)
          (λ r. not (is_some r.error))
          (λ r. r)
          (record { text = none; error = some no_key })
          gemini
          openai
          0)
    × (research_grounded gemini openai 3 0
        ≡ one_of
            (λ v. v.research_grounded 3)
            (λ r. elim r [ none ↦ false | some g ↦ is_some g.text ])
            (λ _. none)
            none
            gemini
            openai
            0)
    × (analyze_image gemini openai 4 5 3 0
        ≡ one_of (λ v. v.analyze_image 4 5 3) is_some (λ _. none) none gemini openai 0)
    × (generate_image gemini openai 3 0
        ≡ one_of
            (λ v. v.generate_image 3)
            (λ r. elim r [ none ↦ false | some m ↦ is_some m.bytes ])
            (λ _. none)
            none
            gemini
            openai
            0)
    × (generate_video gemini openai 3 4 6 0
        ≡ one_of
            (λ v. v.generate_video 3 4 6)
            (λ r. r.ok)
            (λ r. r)
            (record { ok = false; reason = some no_key })
            gemini
            openai
            0)
failover_order_example = failover_order gemini openai 3 4 5 6 0
