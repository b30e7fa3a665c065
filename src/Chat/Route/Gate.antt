-- ===== src/Chat/Route/Gate.antt =====
-- The gates of `POST /chat`: who may ask which assistant, and when the model is called.
use ai_support_agent_builder.Prelude.{
  ℕ, List, [], ◌∷◌, Option, none, some, true, false, ◌&&◌, not, if◌then◌else◌, if_elim, ◌≡◌, refl,
  inr,
}
use ai_support_agent_builder.Text.{codes, is_empty}
use ai_support_agent_builder.Claims.{TenantClaims, is_truthy}
use ai_support_agent_builder.Chat.Refusal.{refusal_message, evaluate_threshold}
use ai_support_agent_builder.Chat.Sources.Header.{ChunkHit}
use ai_support_agent_builder.Chat.Sources.Assemble.{assemble_context}
use ai_support_agent_builder.Chat.Route.{
  token, done, Conn, opened, safe_write, end, Surroundings, ChatBody, Reply, responds, streams,
  dropped, Fetched, fails, brings, Assistant, draft, refuse, answer_hits, answer_question,
  with_assistant, with_lookup, with_body, post_chat, hit_scores, assistant_of, Turn, on_exception,
  options, params_of, turns_of, is_published,
}
use ai_support_agent_builder.Chat.Route.Frames.{
  WellClosed, Ended, on_outsides-WellClosed, on_exception-WellClosed, answer_loop-WellClosed,
  answer_loop-closed, on_exception-closed, safe_write-WellClosed, end-WellClosed,
}
use ai_support_agent_builder.Chat.Generation.{ChatRequest}

-- A question that no hit clears gets the refusal message and an ungrounded `done` without
-- citations, and the model has no say: whatever it would generate, the stream is the same.
pub answer_hits-refuses :
    (env : Surroundings) (generate : ChatRequest → List Turn) (assistant : Assistant)
    (question : List ℕ) (hits : List ChunkHit)
    → (evaluate_threshold (hit_scores hits) assistant.refusal_threshold).refuse ≡ true
    → answer_hits (record env { generate = generate }) assistant question opened hits
      ≡ record { closed = true; frames = token refusal_message ∷ done false [] ∷ [] }
unfolding answer_hits refuse safe_write end
answer_hits-refuses env generate assistant question hits h = rw h refl

-- A token that is bound to an assistant asks that assistant and no other: the assistant that the
-- body names changes nothing.
pub post_chat-bound :
    (env : Surroundings) (claims : TenantClaims) (id question : List ℕ) (x y : Option (List ℕ))
    → claims.assistant_id ≡ some id
    → post_chat env claims (some (record { assistant_id = x; question = question }))
      ≡ post_chat env claims (some (record { assistant_id = y; question = question }))
unfolding post_chat with_body
post_chat-bound env claims id question x y h = rw h refl

-- A stream that is handed out keeps to its form and is ended.
abbrev pub Finished : Reply → Type 0
Finished (responds status message) = Unit
Finished (streams conn) = Ended conn
Finished dropped = Unit

module _ (env : Surroundings) where
  refuse-Ended : (conn : Conn) → WellClosed conn → Ended (refuse env conn)
  unfolding refuse end
  refuse-Ended conn w = (
    refl,
    end-WellClosed (done false []) _ (safe_write-WellClosed (token refusal_message) conn refl w),
  )

  answer_hits-Ended :
      (assistant : Assistant) (question : List ℕ) (conn : Conn) (hits : List ChunkHit)
      → WellClosed conn
      → Ended (answer_hits env assistant question conn hits)
  unfolding answer_hits
  answer_hits-Ended assistant question conn hits w =
      let ctx = assemble_context env.encoder env.locale_compare hits (options env) in
      let turns = turns_of env (params_of env assistant question ctx.text) in
      if_elim Ended (evaluate_threshold (hit_scores hits) assistant.refusal_threshold).refuse _ _
        (λ e. refuse-Ended conn w)
        (λ e. (
          answer_loop-closed ctx.sources [] conn turns,
          answer_loop-WellClosed ctx.sources [] conn turns w,
        ))

  retrieved-Ended :
      (assistant : Assistant) (question : List ℕ) (conn : Conn) (o : Fetched (List ChunkHit))
      → WellClosed conn
      → Ended (elim o [
        | fails ↦ on_exception conn
        | brings hits ↦ if conn.closed then conn else answer_hits env assistant question conn hits
      ])
  retrieved-Ended assistant question conn fails w =
      (on_exception-closed conn, on_exception-WellClosed conn w)
  retrieved-Ended assistant question conn (brings hits) w =
      if_elim Ended conn.closed _ _ (λ e. (e, w))
        (λ e. answer_hits-Ended assistant question conn hits w)

  answer_question-Ended :
      (claims : TenantClaims) (assistant : Assistant) (id question : List ℕ)
      → Ended (answer_question env claims assistant id question)
  unfolding answer_question
  answer_question-Ended claims assistant id question =
      retrieved-Ended assistant question _ (env.retrieve claims.tenant_id id question)
        (on_outsides-WellClosed env.in_retrieval opened (inr tt, tt))

  with_assistant-Finished :
      (claims : TenantClaims) (id question : List ℕ) (o : Option Assistant)
      → Finished (with_assistant env claims id question o)
  unfolding with_assistant
  with_assistant-Finished claims id question none = tt
  with_assistant-Finished claims id question (some a) =
      if_elim Finished (is_truthy claims.assistant_id && not (is_published a.status)) _ _ (λ e. tt)
        (λ e. answer_question-Ended claims a id question)

  with_lookup-Finished :
      (claims : TenantClaims) (id question : List ℕ) (o : Fetched (Option Assistant))
      → Finished (with_lookup env claims id question o)
  unfolding with_lookup
  with_lookup-Finished claims id question fails =
      if_elim Finished env.dropped_in_lookup _ _ (λ e. tt) (λ e. tt)
  with_lookup-Finished claims id question (brings o) =
      if_elim Finished env.dropped_in_lookup _ _ (λ e. tt)
        (λ e. with_assistant-Finished claims id question o)

  -- Whatever the client, the database, the retrieval, the model and the timer do, a stream that
  -- `POST /chat` opens is ended, no `done` or `error` frame is followed by another frame, and so
  -- there is at most one of them.
  pub post_chat-Finished :
      (claims : TenantClaims) (body : Option ChatBody) → Finished (post_chat env claims body)
  unfolding post_chat with_body
  post_chat-Finished claims none = tt
  post_chat-Finished claims (some body) =
      if_elim Finished (not (is_truthy (assistant_of claims.assistant_id body.assistant_id))) _ _
        (λ e. tt) (λ e. with_lookup-Finished claims _ body.question _)

  -- A token that is bound to an assistant gets no answer from it while it is a draft: the answer
  -- is 403, and neither the retrieval nor the model is asked.
  pub post_chat-draft :
      (claims : TenantClaims) (id question : List ℕ) (x : Option (List ℕ)) (a : Assistant)
      → claims.assistant_id ≡ some id
      → is_empty id ≡ false
      → env.dropped_in_lookup ≡ false
      → env.find_assistant claims.tenant_id id ≡ brings (some a)
      → a.status ≡ draft
      → post_chat env claims (some (record { assistant_id = x; question = question }))
        ≡ responds 403 (codes "assistant is not published")
  unfolding post_chat with_body is_truthy with_lookup with_assistant is_published
  post_chat-draft claims id question x a bound named here found status =
      rw (bound, named, found, here, named, status) refl
