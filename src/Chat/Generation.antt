-- ===== src/Chat/Generation.antt =====
-- api/src/chat/generation-service.ts, api/src/providers/chat-models.ts, and the events of a chat
-- stream (packages/shared/src/providers.ts).
use ai_support_agent_builder.Prelude.{
  ℕ, List, [], ◌∷◌, ◌++◌, Option, none, some, Bool, true, false, ◌||◌, not, if◌then◌else◌,
}
use ai_support_agent_builder.Text.{codes, equals, is_blank_text}
use ai_support_agent_builder.Number.{Double}

pub record ChatUsage : Type 0 where
  pub input_tokens : ℕ
  pub output_tokens : ℕ

pub data ChatStreamEvent : Type 0 where
  text_event : List ℕ → ChatStreamEvent
  done_event : ChatUsage → Option (List ℕ) → ChatStreamEvent
  error_event : List ℕ → Bool → ChatStreamEvent

unfoldable pub is_member : List (List ℕ) → List ℕ → Bool
is_member [] s = false
is_member (t ∷ ts) s = equals t s || is_member ts s

abbrev pub allowed_chat_models : List (List ℕ)
allowed_chat_models =
    codes "claude-haiku-4-5"
    ∷ codes "claude-sonnet-4-6"
    ∷ codes "claude-opus-4-6"
    ∷ codes "claude-opus-4-7"
    ∷ codes "claude-opus-4-8"
    ∷ codes "claude-fable-5"
    ∷ []

unfoldable pub is_allowed_chat_model : List ℕ → Bool
unfolding is_member
is_allowed_chat_model model = is_member allowed_chat_models model

abbrev pub no_sampling_param_models : List (List ℕ)
no_sampling_param_models =
    codes "claude-opus-4-7" ∷ codes "claude-opus-4-8" ∷ codes "claude-fable-5" ∷ []

unfoldable pub model_supports_sampling_params : List ℕ → Bool
unfolding is_member
model_supports_sampling_params model = not (is_member no_sampling_param_models model)

unfoldable pub user_message : List ℕ → List ℕ → List ℕ
user_message context question =
    codes "Sources:\n"
    ++ ((if is_blank_text context then codes "(no sources found)" else context)
        ++ (codes "\n\nQuestion: " ++ question))

-- `GenerateParams`, without the signal.
pub record GenerateParams : Type 0 where
  pub model : Option (List ℕ)
  pub system : List ℕ
  pub question : List ℕ
  pub context : List ℕ
  pub max_tokens : Option ℕ
  pub temperature : Option Double

-- `ChatRequest`, with the content of its one message.
pub record ChatRequest : Type 0 where
  pub model : Option (List ℕ)
  pub system : List ℕ
  pub user_content : List ℕ
  pub max_tokens : Option ℕ
  pub temperature : Option Double

abbrev pub default_rag_max_tokens : ℕ
default_rag_max_tokens = 2048

abbrev pub or_default : Option ℕ → ℕ → ℕ
or_default none n = n
or_default (some m) n = m

abbrev pub may_use : Option (List ℕ) → Bool
may_use none = true
may_use (some model) = is_allowed_chat_model model

-- `stream`: the request that goes to the provider; `none` where it throws.
unfoldable pub generation_request : GenerateParams → Option ChatRequest
unfolding is_allowed_chat_model user_message
generation_request params =
    if not (may_use params.model)
    then none
    else some (record {
      model = params.model;
      system = params.system;
      user_content = user_message params.context params.question;
      max_tokens = some (or_default params.max_tokens default_rag_max_tokens);
      temperature = params.temperature;
    })

pub record CollectedAnswer : Type 0 where
  pub text : List ℕ
  pub usage : Option ChatUsage
  pub stop_reason : Option (List ℕ)
  pub error : Option (List ℕ × Bool)

abbrev pub with_event : CollectedAnswer → ChatStreamEvent → CollectedAnswer
with_event c (text_event t) = record c { text = c.text ++ t }
with_event c (done_event usage stop) = record c { usage = some usage; stop_reason = stop }
with_event c (error_event m retryable) = record c { error = some (m, retryable) }

-- The loop, with what is collected so far.
unfoldable pub collect_from : CollectedAnswer → List ChatStreamEvent → CollectedAnswer
collect_from c [] = c
collect_from c (e ∷ es) = collect_from (with_event c e) es

unfoldable pub collect_answer : List ChatStreamEvent → CollectedAnswer
unfolding collect_from
collect_answer events =
    collect_from (record { text = []; usage = none; stop_reason = none; error = none }) events
