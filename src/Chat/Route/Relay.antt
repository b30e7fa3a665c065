-- ===== src/Chat/Route/Relay.antt =====
-- What the client gets of a generation that nothing cuts short, and how the last frame judges it.
use ai_support_agent_builder.Prelude.{
  ℕ, List, [], ◌∷◌, ◌++◌, Option, Bool, true, false, ◌&&◌, not, ◌≡◌, ◌≢◌, refl, ap, ◌∙◌,
  append_assoc, append-nil, Bool-cases, inl, inr,
}
use ai_support_agent_builder.Text.{equals, equals_iff, trim}
use ai_support_agent_builder.Chat.Refusal.{refusal_message}
use ai_support_agent_builder.Chat.Sources.Assemble.{AssembledSource}
use ai_support_agent_builder.Chat.Generation.{ChatUsage, text_event, done_event}
use ai_support_agent_builder.Chat.Citations.{Citation, cited_markers, build_citations}
use ai_support_agent_builder.Chat.Citations.Select.{Selected, build_citations-Selected}
use ai_support_agent_builder.Chat.Route.{
  Frame, ping, token, done, safe_write, end, beats, on_outside, Turn, yields, outside,
  answer_citations, refused_in_prompt, done_frame, finish_answer, answer_loop, is_nonempty,
}

-- What can happen in a generation that ends by itself: a text, the provider's own closing event, and
-- a heartbeat, in any order.
pub data Calm : Type 0 where
  writes : List ℕ → Calm
  counts : ChatUsage → Option (List ℕ) → Calm
  waits : Calm

abbrev pub calm_turn : Calm → Turn
calm_turn (writes t) = yields (text_event t)
calm_turn (counts usage stop) = yields (done_event usage stop)
calm_turn waits = outside beats

abbrev pub calm_turns : List Calm → List Turn
calm_turns [] = []
calm_turns (c ∷ cs) = calm_turn c ∷ calm_turns cs

-- The frames that the client gets of it, and the whole answer.
abbrev pub calm_frames : List Calm → List Frame
calm_frames [] = []
calm_frames (writes t ∷ cs) = token t ∷ calm_frames cs
calm_frames (counts usage stop ∷ cs) = calm_frames cs
calm_frames (waits ∷ cs) = ping ∷ calm_frames cs

abbrev pub calm_text : List Calm → List ℕ
calm_text [] = []
calm_text (writes t ∷ cs) = t ++ calm_text cs
calm_text (counts usage stop ∷ cs) = calm_text cs
calm_text (waits ∷ cs) = calm_text cs

-- The judgement of an answer: the refusal message, up to white space at its ends, is not grounded
-- and cites nothing; any other answer has the citations of the sources that it cites, and is
-- grounded where there is one.
pub record Judged (sources : List AssembledSource) (answer : List ℕ) (grounded : Bool)
    (citations : List Citation) : Type 0 where
  pub refusal : trim answer ≡ refusal_message → (grounded ≡ false) × (citations ≡ [])
  pub cited : trim answer ≢ refusal_message → Selected (cited_markers answer) sources citations
  pub without : citations ≡ [] → grounded ≡ false
  pub grounds : citations ≢ [] → grounded ≡ true

module _ (sources : List AssembledSource) where
  relayed :
      (answer : List ℕ) (fs : List Frame) (cs : List Calm)
      → answer_loop sources answer (record { closed = false; frames = fs }) (calm_turns cs)
        ≡ record {
          closed = true;
          frames = fs ++ (calm_frames cs ++ done_frame sources (answer ++ calm_text cs) ∷ []);
        }
  unfolding answer_loop finish_answer safe_write end on_outside
  relayed answer fs [] = rw (append-nil answer) refl
  relayed answer fs (writes t ∷ cs) =
      relayed (answer ++ t) (fs ++ token t ∷ []) cs
      ∙ ap (λ l. record { closed = true; frames = l })
          (append_assoc fs (token t ∷ [])
              (calm_frames cs ++ done_frame sources ((answer ++ t) ++ calm_text cs) ∷ [])
            ∙ ap (λ a. fs ++ token t ∷ (calm_frames cs ++ done_frame sources a ∷ []))
                (append_assoc answer t (calm_text cs)))
  relayed answer fs (counts usage stop ∷ cs) = relayed answer fs cs
  relayed answer fs (waits ∷ cs) =
      relayed answer (fs ++ ping ∷ []) cs
      ∙ ap (λ l. record { closed = true; frames = l })
          (append_assoc fs (ping ∷ [])
            (calm_frames cs ++ done_frame sources (answer ++ calm_text cs) ∷ []))

  citations_Judged :
      (answer : List ℕ) (cs : List Citation)
      → (trim answer ≢ refusal_message → Selected (cited_markers answer) sources cs)
      → (trim answer ≢ refusal_message)
      → Judged sources answer (is_nonempty cs) cs
  citations_Judged answer [] h other = record {
    refusal = λ e. absurd (other e);
    cited = h;
    without = λ e. refl;
    grounds = λ e. absurd (e refl);
  }
  citations_Judged answer (c ∷ cs) h other = record {
    refusal = λ e. absurd (other e);
    cited = h;
    without = λ e. absurd (cc);
    grounds = λ e. refl;
  }

  answer-Judged :
      (answer : List ℕ)
      → Judged sources answer
          (not (refused_in_prompt answer) && is_nonempty (answer_citations sources answer))
          (answer_citations sources answer)
  unfolding answer_citations refused_in_prompt
  answer-Judged answer = elim (Bool-cases (equals (trim answer) refusal_message)) [
    | inl e ↦ rw e (record {
      refusal = λ h. (refl, refl);
      cited = λ h. absurd (h ((equals_iff (trim answer) refusal_message).0 e));
      without = λ h. refl;
      grounds = λ h. absurd (h refl);
    })
    | inr e ↦ rw e (
        citations_Judged answer (build_citations answer sources)
          (λ h. build_citations-Selected answer sources)
          (λ same. let f = (equals_iff (trim answer) refusal_message).1 same in absurd (cc)))
  ]

  -- A generation that nothing cuts short, the provider's closing event and heartbeats included, is
  -- relayed text by text and in order, with a ping for each heartbeat; behind it comes one `done`,
  -- and the stream is ended. The `done` judges the whole answer: the refusal message, up to white
  -- space at its ends, is not grounded and cites nothing; any other answer has the citations of the
  -- sources that it cites, and is grounded exactly where there is one.
  pub answer_loop-relays :
      (fs : List Frame) (cs : List Calm)
      → (grounded : Bool) × (citations : List Citation) × (answer_loop sources []
            (record { closed = false; frames = fs })
            (calm_turns cs)
          ≡ record {
            closed = true;
            frames = fs ++ (calm_frames cs ++ done grounded citations ∷ []);
          })
        × Judged sources (calm_text cs) grounded citations
  answer_loop-relays fs cs = (
    not (refused_in_prompt (calm_text cs)) && is_nonempty (answer_citations sources (calm_text cs)),
    answer_citations sources (calm_text cs),
    relayed [] fs cs,
    answer-Judged (calm_text cs),
  )
