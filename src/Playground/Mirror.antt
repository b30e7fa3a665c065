-- ===== src/Playground/Mirror.antt =====
-- The playground shows what the chat does.
use ai_support_agent_builder.Prelude.{
  ℕ, List, [], Option, none, some, true, false, if◌then◌else◌, ◌≡◌, refl, ap, ◌∙◌,
}
use ai_support_agent_builder.Text.{is_empty}
use ai_support_agent_builder.Claims.{TenantClaims, is_admin_session, is_truthy}
use ai_support_agent_builder.Chat.Sources.Header.{ChunkHit}
use ai_support_agent_builder.Chat.Sources.Assemble.{assemble_context}
use ai_support_agent_builder.Chat.Route.{
  Assistant, Surroundings, Fetched, brings, options, post_chat, streams, refuse, opened,
  answer_loop, turns_of, params_of, with_body, with_lookup, with_assistant, answer_question,
  answer_hits, on_outsides, on_exception, Outside, Conn, fails,
}
use ai_support_agent_builder.Playground.{shows, debug_view, post_retrieve, assembled_view}

-- What the playground and the chat do for an administrator's question, over the same hits.
pub record Mirrored (env : Surroundings)
    (retrieve : List ℕ → List ℕ → List ℕ → Option ℕ → Fetched (List ChunkHit))
    (claims : TenantClaims) (a : Assistant) (id question : List ℕ) (k : Option ℕ)
    (hits : List ChunkHit) : Type 0 where
  pub shown :
      post_retrieve env retrieve claims
        (some (record { assistant_id = id; question = question; k = k }))
      ≡ shows (debug_view env retrieve a question hits)
  pub refused :
      (debug_view env retrieve a question hits).decision.refuse ≡ true
      → (post_chat env claims (some (record { assistant_id = some id; question = question }))
          ≡ streams (refuse env opened))
        × ((debug_view env retrieve a question hits).assembled ≡ none)
  pub answered :
      (debug_view env retrieve a question hits).decision.refuse ≡ false
      → (post_chat env claims (some (record { assistant_id = some id; question = question }))
          ≡ streams (
              answer_loop
                (assemble_context env.encoder env.locale_compare hits (options env)).sources
                []
                opened
                (turns_of env (
                  params_of env a question
                    (assemble_context env.encoder env.locale_compare hits (options env)).text))))
        × ((debug_view env retrieve a question hits).assembled
            ≡ some (
                assembled_view
                  (assemble_context env.encoder env.locale_compare hits (options env))))

module _ (env : Surroundings)
    (retrieve : List ℕ → List ℕ → List ℕ → Option ℕ → Fetched (List ChunkHit)) where
  question-answered :
      (claims : TenantClaims) (a : Assistant) (id question : List ℕ) (hits : List ChunkHit)
      → env.in_retrieval ≡ []
      → env.retrieve claims.tenant_id id question ≡ brings hits
      → answer_question env claims a id question ≡ answer_hits env a question opened hits
  unfolding answer_question on_outsides
  question-answered claims a id question hits quiet brought =
      ap
        (λ (os : List Outside). elim (env.retrieve claims.tenant_id id question) as (λ r. Conn) [
          | fails ↦ on_exception (on_outsides os opened)
          | brings hits ↦
              if (on_outsides os opened).closed
              then on_outsides os opened
              else answer_hits env a question (on_outsides os opened) hits
        ])
        quiet
      ∙ ap
          (λ r. elim r as (λ r. Conn) [
            | fails ↦ on_exception opened
            | brings hits ↦ answer_hits env a question opened hits
          ])
          brought

  chat-answers :
      (claims : TenantClaims) (a : Assistant) (id question : List ℕ) (hits : List ChunkHit)
      → claims.assistant_id ≡ none
      → is_empty id ≡ false
      → env.dropped_in_lookup ≡ false
      → env.in_retrieval ≡ []
      → env.find_assistant claims.tenant_id id ≡ brings (some a)
      → env.retrieve claims.tenant_id id question ≡ brings hits
      → post_chat env claims (some (record { assistant_id = some id; question = question }))
        ≡ streams (answer_hits env a question opened hits)
  unfolding post_chat with_body with_lookup with_assistant is_truthy
  chat-answers claims a id question hits free named there quiet found brought =
      simp (free, named, there, found, question-answered claims a id question hits quiet brought)

  -- Where the client stays and nothing else happens while the hits are fetched, and the two fetch
  -- the same assistant and the same hits: the playground's decision is the chat's. Where it says
  -- that the gate refuses, the chat refuses before the model; where it says that the gate passes,
  -- it shows the sources that the chat gives to the model.
  pub post_retrieve-Mirrored :
      (claims : TenantClaims) (a : Assistant) (id question : List ℕ) (k : Option ℕ)
      (hits : List ChunkHit)
      → is_admin_session claims ≡ true
      → claims.assistant_id ≡ none
      → is_empty id ≡ false
      → env.dropped_in_lookup ≡ false
      → env.in_retrieval ≡ []
      → env.find_assistant claims.tenant_id id ≡ brings (some a)
      → env.retrieve claims.tenant_id id question ≡ brings hits
      → retrieve claims.tenant_id id question k ≡ brings hits
      → Mirrored env retrieve claims a id question k hits
  unfolding post_retrieve debug_view answer_hits
  post_retrieve-Mirrored claims a id question k hits admin free named there quiet found brought
        same =
      let chat = chat-answers claims a id question hits free named there quiet found brought in
      record {
        shown = rw (admin, found, same) refl;
        refused = λ e. (chat ∙ rw e refl, rw e refl);
        answered = λ e. (chat ∙ rw e refl, rw e refl);
      }
