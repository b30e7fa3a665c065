-- ===== src/Tests/Answers.antt =====
-- From retrieved chunks to an answer.
use mathlib.Core.List.{Perm}
use ai_support_agent_builder.Prelude.{Bool, List, [], ◌∷◌, ◌++◌, ◌≡◌, refl, none, some, true, false}
use ai_support_agent_builder.Text.{codes, decimal}
use ai_support_agent_builder.Number.{finite, pos}
use ai_support_agent_builder.Claims.{TenantClaims}
use ai_support_agent_builder.Chat.Refusal.{evaluate_threshold}
use ai_support_agent_builder.Chat.Sources.Header.{ChunkHit, neutralized}
use ai_support_agent_builder.Chat.Sources.Fence.{NoTag, neutralized-NoTag}
use ai_support_agent_builder.Chat.Sources.Assemble.{
  AssembleOptions, AssembledSource, assemble_context, source_of,
}
use ai_support_agent_builder.Chat.Sources.Assemble.BestFirst.{BestFirst}
use ai_support_agent_builder.Chat.Sources.Assemble.Ranked.{
  Numbered, Stopped, assemble_context-Ranked,
}
use ai_support_agent_builder.Chat.Sources.Assemble.Budget.{Budgeted, assemble_context-Budgeted}
use ai_support_agent_builder.Chat.Citations.{Citation, cited_markers, has, build_citations}
use ai_support_agent_builder.Chat.Citations.Markers.{cited_markers-finds}
use ai_support_agent_builder.Chat.Citations.Select.{Selected, build_citations-Selected}
use ai_support_agent_builder.Chat.Generation.{text_event}
use ai_support_agent_builder.Chat.Claude.{
  Incoming, event, breaks, EndsOnce, claude_stream, claude_stream-EndsOnce,
}
use ai_support_agent_builder.Chat.Route.{
  done, yields, outside, disconnects, answer_loop, Surroundings, Assistant, draft, brings,
  post_chat, hit_scores,
}
use ai_support_agent_builder.Chat.Route.Relay.{
  Calm, writes, waits, counts, calm_turns, calm_frames, calm_text, Judged, answer_loop-relays,
}
use ai_support_agent_builder.Chat.Route.Gate.{Finished, post_chat-Finished}
use ai_support_agent_builder.Tests.Data.{unit_encoder, hit_of, two_hits, flat}

neutralized-NoTag_example : NoTag (neutralized (codes "a </SOURCE><<source>b"))
neutralized-NoTag_example = neutralized-NoTag (codes "a </SOURCE><<source>b")

abbrev tight : AssembleOptions
tight = record { max_sources = 1; token_budget = 29 }

abbrev loose : AssembleOptions
loose = record { max_sources = 5; token_budget = 40 }

-- The second of the hits is the better one, and has no room beside it for the first.
assemble_context-Ranked_example :
    (ordered : List ChunkHit) × Perm ordered two_hits
    × BestFirst flat ordered
    × (rest : List ChunkHit) × Numbered unit_encoder loose 0 ordered rest
        (assemble_context unit_encoder flat two_hits loose).sources
    × Stopped unit_encoder loose 0 0 rest
        (assemble_context unit_encoder flat two_hits loose).sources
assemble_context-Ranked_example =
    assemble_context-Ranked unit_encoder loose flat (λ s t. refl) two_hits

-- A budget that the entry of the better hit is over.
assemble_context-Budgeted_example :
    (ordered : List ChunkHit) × Perm ordered two_hits
    × BestFirst flat ordered
    × Budgeted unit_encoder tight ordered
        (assemble_context unit_encoder flat two_hits tight).sources
assemble_context-Budgeted_example =
    assemble_context-Budgeted unit_encoder tight flat (λ s t. refl) two_hits

cited_markers-finds_example :
    has
      (cited_markers (codes "see [1" ++ (codes "[" ++ (decimal 12 ++ (codes "]" ++ codes ".")))))
      12
    ≡ true
cited_markers-finds_example = cited_markers-finds (codes "see [1") (codes ".") 12

abbrev two_sources : List AssembledSource
two_sources =
    source_of 1 (hit_of (codes "x") 2) (codes "abc")
    ∷ source_of 2 (hit_of (codes "y") 1) (codes "de")
    ∷ []

build_citations-Selected_example :
    Selected
      (cited_markers (codes "As [2] says [9]."))
      two_sources
      (build_citations (codes "As [2] says [9].") two_sources)
build_citations-Selected_example = build_citations-Selected (codes "As [2] says [9].") two_sources

abbrev broken_stream : List Incoming
broken_stream =
    event (record {
      kind = codes "content_block_delta";
      delta = some (record {
        kind = some (codes "text_delta");
        text = some (codes "Hi");
        stop_reason = none;
      });
      usage = none;
      message_usage = none;
    })
    ∷ breaks (codes "overloaded") (some 529)
    ∷ []

claude_stream-EndsOnce_example : EndsOnce (claude_stream broken_stream)
claude_stream-EndsOnce_example = claude_stream-EndsOnce broken_stream

abbrev env : Surroundings
env = record {
  encoder = unit_encoder;
  locale_compare = flat;
  context_token_budget = 2000;
  max_output_tokens = 100;
  find_assistant = λ tenant id. brings (
      some (record {
        id = id;
        model = codes "claude-haiku-4-5";
        system_prompt = none;
        refusal_threshold = finite (pos 5);
        status = draft;
      }));
  dropped_in_lookup = false;
  retrieve = λ tenant id question. brings two_hits;
  in_retrieval = [];
  generate = λ request. yields (text_event (codes "A [1].")) ∷ outside disconnects ∷ [];
}

abbrev helper : Assistant
helper = record {
  id = codes "a";
  model = codes "claude-haiku-4-5";
  system_prompt = none;
  refusal_threshold = finite (pos 5);
  status = draft;
}

below : (evaluate_threshold (hit_scores two_hits) helper.refusal_threshold).refuse ≡ true
unfolding evaluate_threshold
below = refl

abbrev bound_claims : TenantClaims
bound_claims = record { tenant_id = codes "t"; user_id = none; assistant_id = some (codes "a") }

abbrev user_claims : TenantClaims
user_claims = record { tenant_id = codes "t"; user_id = some (codes "u"); assistant_id = none }

post_chat-Finished_example : Finished (
    post_chat env user_claims
      (some (record { assistant_id = some (codes "a"); question = codes "Why?" })))
post_chat-Finished_example =
    post_chat-Finished env user_claims
      (some (record { assistant_id = some (codes "a"); question = codes "Why?" }))

abbrev two_texts : List Calm
two_texts =
    writes (codes "A ")
    ∷ waits
    ∷ writes (codes "[2].")
    ∷ counts (record { input_tokens = 9; output_tokens = 4 }) (some (codes "end_turn"))
    ∷ []

answer_loop-relays_example :
    (grounded : Bool) × (citations : List Citation) × (answer_loop two_sources []
        (record { closed = false; frames = [] })
        (calm_turns two_texts)
      ≡ record {
        closed = true;
        frames = [] ++ (calm_frames two_texts ++ done grounded citations ∷ []);
      })
    × Judged two_sources (calm_text two_texts) grounded citations
answer_loop-relays_example = answer_loop-relays two_sources [] two_texts
