-- ===== src/Chat/Route.antt =====
-- api/src/routes/chat.ts: `POST /chat`, behind the token and the rate limit.
pub mod Frames
pub mod Relay
pub mod Gate
use ai_support_agent_builder.Prelude.{
  ℕ, List, [], ◌∷◌, ◌++◌, Option, none, some, Bool, true, false, ◌||◌, ◌&&◌, not, if◌then◌else◌,
  leb,
}
use ai_support_agent_builder.Text.{codes, equals, trim, is_empty}
use ai_support_agent_builder.Number.{Double, Sign}
use ai_support_agent_builder.Claims.{TenantClaims, is_truthy}
use ai_support_agent_builder.Chunking.Tokenizer.{Encoder}
use ai_support_agent_builder.Chat.Refusal.{refusal_message, evaluate_threshold, ThresholdResult}
use ai_support_agent_builder.Chat.Sources.Header.{ChunkHit}
use ai_support_agent_builder.Chat.Sources.Assemble.{
  AssembledSource, AssembledContext, assemble_context, AssembleOptions, default_assemble_options,
}
use ai_support_agent_builder.Chat.Citations.{Citation, build_citations}
use ai_support_agent_builder.Chat.Grounding.{build_grounding_system}
use ai_support_agent_builder.Chat.Generation.{
  ChatStreamEvent, text_event, done_event, error_event, GenerateParams, ChatRequest,
  generation_request,
}

-- What is written on the stream. The latency of `done` is left out.
pub data Frame : Type 0 where
  ping : Frame
  token : List ℕ → Frame
  done : Bool → List Citation → Frame
  error : List ℕ → Option Bool → Frame

-- The open stream: the frames that were written, in order, and whether it has been ended.
pub record Conn : Type 0 where
  pub closed : Bool
  pub frames : List Frame

abbrev pub opened : Conn
opened = record { closed = false; frames = [] }

unfoldable pub safe_write : Frame → Conn → Conn
safe_write frame conn =
    if conn.closed then conn else record conn { frames = conn.frames ++ frame ∷ [] }

unfoldable pub end : Conn → Conn
end conn = record conn { closed = true }

-- What can happen beside the handler: the heartbeat, the client's end, the timer.
pub data Outside : Type 0 where
  beats disconnects times_out : Outside

unfoldable pub on_outside : Outside → Conn → Conn
unfolding safe_write end
on_outside beats conn = safe_write ping conn
on_outside disconnects conn = end conn
on_outside times_out conn =
    if conn.closed then conn else end (safe_write (error (codes "timeout") none) conn)

unfoldable pub on_outsides : List Outside → Conn → Conn
unfolding on_outside
on_outsides [] conn = conn
on_outsides (o ∷ os) conn = on_outsides os (on_outside o conn)

-- What the loop meets, in order: events of the generation, an exception, and the outside.
pub data Turn : Type 0 where
  yields : ChatStreamEvent → Turn
  throws : Turn
  outside : Outside → Turn

-- The `catch` block, after the headers.
unfoldable pub on_exception : Conn → Conn
unfolding safe_write end
on_exception conn =
    if conn.closed then conn else end (safe_write (error (codes "internal error") none) conn)

-- The model refused when its answer is the refusal message and nothing else.
unfoldable pub refused_in_prompt : List ℕ → Bool
refused_in_prompt answer = equals (trim answer) refusal_message

unfoldable pub answer_citations : List AssembledSource → List ℕ → List Citation
unfolding refused_in_prompt build_citations
answer_citations sources answer =
    if refused_in_prompt answer then [] else build_citations answer sources

abbrev pub is_nonempty {ℓ} : {A : Type ℓ} → List A → Bool
is_nonempty [] = false
is_nonempty (x ∷ xs) = true

abbrev pub done_frame : List AssembledSource → List ℕ → Frame
done_frame sources answer =
    let citations = answer_citations sources answer in
    done (not (refused_in_prompt answer) && is_nonempty citations) citations

-- Behind the loop.
unfoldable pub finish_answer : List AssembledSource → List ℕ → Conn → Conn
unfolding safe_write end answer_citations refused_in_prompt
finish_answer sources answer conn =
    if conn.closed then conn else end (safe_write (done_frame sources answer) conn)

-- The loop over the generation, with the answer so far. A break on a closed stream leaves what
-- is left of the generation unread.
unfoldable pub answer_loop : List AssembledSource → List ℕ → Conn → List Turn → Conn
unfolding finish_answer safe_write end on_outside on_exception
answer_loop sources answer conn [] = finish_answer sources answer conn
answer_loop sources answer conn (outside o ∷ turns) =
    answer_loop sources answer (on_outside o conn) turns
answer_loop sources answer conn (throws ∷ turns) = on_exception conn
answer_loop sources answer conn (yields (text_event t) ∷ turns) =
    let rest = answer_loop sources (answer ++ t) (safe_write (token t) conn) turns in
    if conn.closed then conn else rest
answer_loop sources answer conn (yields (error_event m retryable) ∷ turns) =
    if conn.closed
    then conn
    else end (safe_write (error (codes "generation failed") (some retryable)) conn)
answer_loop sources answer conn (yields (done_event usage stop) ∷ turns) =
    let rest = answer_loop sources answer conn turns in if conn.closed then conn else rest

pub data AssistantStatus : Type 0 where
  draft published : AssistantStatus

pub record Assistant : Type 0 where
  pub id : List ℕ
  pub model : List ℕ
  pub system_prompt : Option (List ℕ)
  pub refusal_threshold : Double
  pub status : AssistantStatus

-- A database or retrieval call: it fails, or it brings a value.
pub data Fetched {ℓ} (A : Type ℓ) : Type ℓ where
  fails : Fetched A
  brings : A → Fetched A

-- What is around the handler: the lookup under the tenant's security, the retrieval, the
-- generation (whose turns include the outside's), and the outside's turns while it waits.
pub record Surroundings : Type 0 where
  pub encoder : Encoder
  pub locale_compare : List ℕ → List ℕ → Sign
  pub context_token_budget : ℕ
  pub max_output_tokens : ℕ
  pub find_assistant : List ℕ → List ℕ → Fetched (Option Assistant)
  pub dropped_in_lookup : Bool
  pub retrieve : List ℕ → List ℕ → List ℕ → Fetched (List ChunkHit)
  pub in_retrieval : List Outside
  pub generate : ChatRequest → List Turn

-- What the client gets: a response with a status, the stream, or nothing, since it is gone.
pub data Reply : Type 0 where
  responds : ℕ → List ℕ → Reply
  streams : Conn → Reply
  dropped : Reply

-- The body that the schema accepts.
pub record ChatBody : Type 0 where
  pub assistant_id : Option (List ℕ)
  pub question : List ℕ

-- `tenant.assistantId ?? body.assistantId`
abbrev pub assistant_of : Option (List ℕ) → Option (List ℕ) → Option (List ℕ)
assistant_of none body = body
assistant_of (some id) body = some id

abbrev pub given : Option (List ℕ) → List ℕ
given none = []
given (some id) = id

abbrev pub hit_scores : List ChunkHit → List Double
hit_scores [] = []
hit_scores (hit ∷ hits) = hit.score ∷ hit_scores hits

unfoldable pub is_published : AssistantStatus → Bool
is_published published = true
is_published draft = false

module _ (env : Surroundings) where
  -- A model that is not allowed makes `stream` throw.
  unfoldable pub turns_of : GenerateParams → List Turn
  unfolding generation_request
  turns_of params = elim (generation_request params) [
    | none ↦ throws ∷ []
    | some request ↦ env.generate request
  ]

  abbrev pub options : AssembleOptions
  options = record {
    max_sources = default_assemble_options.max_sources;
    token_budget = env.context_token_budget;
  }

  abbrev pub params_of : Assistant → List ℕ → List ℕ → GenerateParams
  params_of assistant question context = record {
    model = some assistant.model;
    system = build_grounding_system assistant.system_prompt;
    question = question;
    context = context;
    max_tokens = some env.max_output_tokens;
    temperature = none;
  }

  -- The refusal before the model is called.
  unfoldable pub refuse : Conn → Conn
  unfolding safe_write end
  refuse conn = end (safe_write (done false []) (safe_write (token refusal_message) conn))

  -- From the hits on.
  unfoldable pub answer_hits : Assistant → List ℕ → Conn → List ChunkHit → Conn
  unfolding refuse assemble_context turns_of answer_loop evaluate_threshold
  answer_hits assistant question conn hits =
      let gate = evaluate_threshold (hit_scores hits) assistant.refusal_threshold in
      let ctx = assemble_context env.encoder env.locale_compare hits options in
      if gate.refuse
      then refuse conn
      else answer_loop ctx.sources [] conn (turns_of (params_of assistant question ctx.text))

  -- From the open stream on.
  unfoldable pub answer_question : TenantClaims → Assistant → List ℕ → List ℕ → Conn
  unfolding on_outsides answer_hits on_exception
  answer_question claims assistant assistant_id question =
      let conn = on_outsides env.in_retrieval opened in
      elim (env.retrieve claims.tenant_id assistant_id question) [
        | fails ↦ on_exception conn
        | brings hits ↦ if conn.closed then conn else answer_hits assistant question conn hits
      ]

  -- With the assistant that was looked up.
  unfoldable pub with_assistant : TenantClaims → List ℕ → List ℕ → Option Assistant → Reply
  unfolding answer_question is_truthy is_published
  with_assistant claims assistant_id question none = responds 404 (codes "assistant not found")
  with_assistant claims assistant_id question (some assistant) =
      if is_truthy claims.assistant_id && not (is_published assistant.status)
      then responds 403 (codes "assistant is not published")
      else streams (answer_question claims assistant assistant_id question)

  unfoldable pub with_lookup : TenantClaims → List ℕ → List ℕ → Fetched (Option Assistant) → Reply
  unfolding with_assistant
  with_lookup claims assistant_id question fails =
      if env.dropped_in_lookup then dropped else responds 503 (codes "service unavailable")
  with_lookup claims assistant_id question (brings found) =
      if env.dropped_in_lookup then dropped else with_assistant claims assistant_id question found

  unfoldable pub with_body : TenantClaims → ChatBody → Reply
  unfolding with_lookup is_truthy
  with_body claims body =
      let assistant_id = assistant_of claims.assistant_id body.assistant_id in
      if not (is_truthy assistant_id)
      then responds 400 (codes "assistantId is required")
      else with_lookup claims (given assistant_id) body.question
          (env.find_assistant claims.tenant_id (given assistant_id))

  -- The handler; the body is `none` where the schema refuses it.
  unfoldable pub post_chat : TenantClaims → Option ChatBody → Reply
  unfolding with_body
  post_chat claims none = responds 400 (codes "invalid request")
  post_chat claims (some body) = with_body claims body
