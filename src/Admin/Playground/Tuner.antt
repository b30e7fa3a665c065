-- ===== src/Admin/Playground/Tuner.antt =====
-- The tuner of the page foretells the gate.
use ai_support_agent_builder.Prelude.{
  ℕ, List, [], ◌∷◌, Option, none, some, if◌then◌else◌, ◌≡◌, refl, Bool-cases, inl, inr,
}
use ai_support_agent_builder.Number.{Double, is_finite, lt_double}
use ai_support_agent_builder.Chat.Refusal.{evaluate_threshold}
use ai_support_agent_builder.Chat.Sources.Header.{ChunkHit}
use ai_support_agent_builder.Chat.Route.{Assistant, Surroundings, Fetched, hit_scores}
use ai_support_agent_builder.Playground.{debug_view}
use ai_support_agent_builder.Admin.Playground.{tuned_refuse}

-- A number behind `JSON.stringify` and `JSON.parse`: null where it is not finite.
abbrev pub through_json : Option Double → Option Double
through_json none = none
through_json (some d) = if is_finite d then some d else none

refuse-tuned :
    (scores : List Double) (threshold tuned : Double)
    → tuned_refuse (through_json (evaluate_threshold scores threshold).top_score) tuned
      ≡ (evaluate_threshold scores tuned).refuse
unfolding tuned_refuse evaluate_threshold
refuse-tuned [] threshold tuned = refl
refuse-tuned (top ∷ scores) threshold tuned = elim (Bool-cases (is_finite top)) [
  | inl f ↦ elim (Bool-cases (lt_double top threshold)) [
    | inl l ↦ elim (Bool-cases (lt_double top tuned)) [
      | inl m ↦ rw (f, l, f, m) refl
      | inr m ↦ rw (f, l, f, m) refl
    ]
    | inr l ↦ elim (Bool-cases (lt_double top tuned)) [
      | inl m ↦ rw (f, l, f, m) refl
      | inr m ↦ rw (f, l, f, m) refl
    ]
  ]
  | inr f ↦ rw (f, f) refl
]

module _ (env : Surroundings)
    (retrieve : List ℕ → List ℕ → List ℕ → Option ℕ → Fetched (List ChunkHit)) where
  -- What the page says of any position of the slider, from the best score that the server has sent,
  -- is what the gate decides over the same hits once the assistant has that threshold.
  pub tuned_refuse-debug_view :
      (assistant : Assistant) (question : List ℕ) (hits : List ChunkHit) (tuned : Double)
      → tuned_refuse
          (through_json (debug_view env retrieve assistant question hits).decision.top_score)
          tuned
        ≡ (debug_view env retrieve
            (record assistant { refusal_threshold = tuned })
            question
            hits).decision.refuse
  unfolding debug_view
  tuned_refuse-debug_view assistant question hits tuned =
      refuse-tuned (hit_scores hits) assistant.refusal_threshold tuned
