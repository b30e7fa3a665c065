-- ===== src/Playground.antt =====
-- api/src/routes/playground.ts: the retrieval of the chat, shown with its scores and its gate.
pub mod Mirror
use ai_support_agent_builder.Prelude.{
  ℕ, List, [], ◌∷◌, map, take, Option, none, some, Bool, true, false, not, if◌then◌else◌,
}
use ai_support_agent_builder.Text.{codes}
use ai_support_agent_builder.Number.{Double}
use ai_support_agent_builder.Claims.{TenantClaims, is_admin_session}
use ai_support_agent_builder.Chat.Refusal.{RefusalReason, ThresholdResult, evaluate_threshold}
use ai_support_agent_builder.Chat.Sources.Header.{ChunkHit}
use ai_support_agent_builder.Chat.Sources.Assemble.{
  AssembledSource, AssembledContext, assemble_context,
}
use ai_support_agent_builder.Chat.Route.{
  Assistant, Surroundings, Fetched, fails, brings, hit_scores, options,
}

-- The body that the schema accepts, with the trimmed question.
pub record PlaygroundBody : Type 0 where
  pub assistant_id : List ℕ
  pub question : List ℕ
  pub k : Option ℕ

pub record RetrievedView : Type 0 where
  pub id : List ℕ
  pub document_id : List ℕ
  pub title : List ℕ
  pub page : Option ℕ
  pub section : Option (List ℕ)
  pub score : Double
  pub snippet : List ℕ

pub record SourceView : Type 0 where
  pub marker : ℕ
  pub chunk_id : List ℕ
  pub document_id : List ℕ
  pub title : List ℕ
  pub page : Option ℕ
  pub section : Option (List ℕ)
  pub score : Double

pub record AssembledView : Type 0 where
  pub total_tokens : ℕ
  pub sources : List SourceView

pub record DebugView : Type 0 where
  pub assistant_id : List ℕ
  pub question : List ℕ
  pub threshold : Double
  pub decision : ThresholdResult
  pub retrieved : List RetrievedView
  pub assembled : Option AssembledView

pub data PlaygroundReply : Type 0 where
  responds : ℕ → List ℕ → PlaygroundReply
  shows : DebugView → PlaygroundReply

abbrev pub snippet_max : ℕ
snippet_max = 200

abbrev pub retrieved_view : ChunkHit → RetrievedView
retrieved_view h = record {
  id = h.id;
  document_id = h.document_id;
  title = h.title;
  page = h.page;
  section = h.section;
  score = h.score;
  snippet = take snippet_max h.content;
}

abbrev pub source_view : AssembledSource → SourceView
source_view s = record {
  marker = s.marker;
  chunk_id = s.chunk_id;
  document_id = s.document_id;
  title = s.title;
  page = s.page;
  section = s.section;
  score = s.score;
}

abbrev pub assembled_view : AssembledContext → AssembledView
assembled_view ctx = record {
  total_tokens = ctx.total_tokens;
  sources = map source_view ctx.sources;
}

abbrev pub unavailable : PlaygroundReply
unavailable = responds 503 (codes "service unavailable")

-- The surroundings are those of the chat; the retrieval also takes the number of hits.
module _ (env : Surroundings)
    (retrieve : List ℕ → List ℕ → List ℕ → Option ℕ → Fetched (List ChunkHit)) where
  -- From the hits on.
  unfoldable pub debug_view : Assistant → List ℕ → List ChunkHit → DebugView
  unfolding evaluate_threshold assemble_context
  debug_view assistant question hits =
      let gate = evaluate_threshold (hit_scores hits) assistant.refusal_threshold in
      let ctx = assemble_context env.encoder env.locale_compare hits (options env) in
      record {
        assistant_id = assistant.id;
        question = question;
        threshold = assistant.refusal_threshold;
        decision = gate;
        retrieved = map retrieved_view hits;
        assembled = if gate.refuse then none else some (assembled_view ctx);
      }

  abbrev pub with_hits : Assistant → List ℕ → Fetched (List ChunkHit) → PlaygroundReply
  with_hits assistant question fails = unavailable
  with_hits assistant question (brings hits) = shows (debug_view assistant question hits)

  abbrev pub with_lookup :
      TenantClaims → PlaygroundBody → Fetched (Option Assistant) → PlaygroundReply
  with_lookup claims body fails = unavailable
  with_lookup claims body (brings none) = responds 404 (codes "assistant not found")
  with_lookup claims body (brings (some assistant)) =
      with_hits assistant body.question
        (retrieve claims.tenant_id body.assistant_id body.question body.k)

  abbrev pub with_body : TenantClaims → Option PlaygroundBody → PlaygroundReply
  with_body claims none = responds 400 (codes "invalid request")
  with_body claims (some body) =
      with_lookup claims body (env.find_assistant claims.tenant_id body.assistant_id)

  -- `POST /playground/retrieve`
  unfoldable pub post_retrieve : TenantClaims → Option PlaygroundBody → PlaygroundReply
  unfolding is_admin_session debug_view
  post_retrieve claims body =
      if not (is_admin_session claims)
      then responds 403 (codes "admin only")
      else with_body claims body
