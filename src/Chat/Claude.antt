-- ===== src/Chat/Claude.antt =====
-- `ClaudeChat.stream` of api/src/providers/claude-chat.ts.
use ai_support_agent_builder.Prelude.{
  ℕ, List, [], ◌∷◌, Option, none, some, Bool, false, ◌||◌, ◌&&◌, if◌then◌else◌, leb, ◌==◌, ◌≡◌,
  refl,
}
use ai_support_agent_builder.Text.{codes, equals}
use ai_support_agent_builder.Number.{Double}
use ai_support_agent_builder.Chat.Generation.{
  ChatStreamEvent, text_event, done_event, error_event, ChatRequest, or_default,
  model_supports_sampling_params,
}

-- `usage` of an event.
pub record Usage : Type 0 where
  pub input_tokens : Option ℕ
  pub output_tokens : Option ℕ

pub record Delta : Type 0 where
  pub kind : Option (List ℕ)
  pub text : Option (List ℕ)
  pub stop_reason : Option (List ℕ)

-- An event of the provider's stream; `message_usage` is `message?.usage`.
pub record AnthropicStreamEvent : Type 0 where
  pub kind : List ℕ
  pub delta : Option Delta
  pub usage : Option Usage
  pub message_usage : Option Usage

-- What the stream brings: an event, or an error with its message and its `status`.
pub data Incoming : Type 0 where
  event : AnthropicStreamEvent → Incoming
  breaks : List ℕ → Option ℕ → Incoming

pub record CreateArgs : Type 0 where
  pub model : List ℕ
  pub max_tokens : ℕ
  pub system : List ℕ
  pub user_content : List ℕ
  pub temperature : Option Double

abbrev pub default_max_tokens : ℕ
default_max_tokens = 1024

abbrev pub text_or {ℓ} : {A : Type ℓ} → Option A → A → A
text_or none a = a
text_or (some b) a = b

-- The arguments of `messages.create`.
unfoldable pub create_args : List ℕ → ChatRequest → CreateArgs
unfolding model_supports_sampling_params
create_args default_model req =
    let model = text_or req.model default_model in
    record {
      model = model;
      max_tokens = or_default req.max_tokens default_max_tokens;
      system = req.system;
      user_content = req.user_content;
      temperature = if model_supports_sampling_params model then req.temperature else none;
    }

unfoldable pub is_retryable : Option ℕ → Bool
is_retryable none = false
is_retryable (some status) = status == 429 || leb 500 status

-- What the loop keeps.
pub record Counters : Type 0 where
  pub input_tokens : ℕ
  pub output_tokens : ℕ
  pub stop_reason : Option (List ℕ)

abbrev pub input_of : Option Usage → Option ℕ
input_of none = none
input_of (some u) = u.input_tokens

abbrev pub output_of : Option Usage → Option ℕ
output_of none = none
output_of (some u) = u.output_tokens

abbrev pub stop_of : Option Delta → Option (List ℕ)
stop_of none = none
stop_of (some d) = d.stop_reason

abbrev pub or_else_some {ℓ} : {A : Type ℓ} → Option A → Option A → Option A
or_else_some none b = b
or_else_some (some a) b = some a

abbrev pub kind_is : Option (List ℕ) → List ℕ → Bool
kind_is none s = false
kind_is (some t) s = equals t s

-- A text delta with a text: the text to relay.
abbrev pub delta_text : Option Delta → Option (List ℕ)
delta_text none = none
delta_text (some d) = if kind_is d.kind (codes "text_delta") then d.text else none

abbrev pub is_text_delta : Option Delta → Bool
is_text_delta none = false
is_text_delta (some d) = kind_is d.kind (codes "text_delta")

abbrev pub yield_if : Option (List ℕ) → List ChatStreamEvent → List ChatStreamEvent
yield_if none rest = rest
yield_if (some t) rest = text_event t ∷ rest

-- The counters after an event.
unfoldable pub count_event : Counters → AnthropicStreamEvent → Counters
count_event c e =
    if equals e.kind (codes "content_block_delta") && is_text_delta e.delta
    then c
    else if equals e.kind (codes "message_start")
    then record c { input_tokens = text_or (input_of e.message_usage) c.input_tokens }
    else if equals e.kind (codes "message_delta")
    then record c {
      output_tokens = text_or (output_of e.usage) c.output_tokens;
      stop_reason = or_else_some (stop_of e.delta) c.stop_reason;
    }
    else c

-- The text an event yields.
unfoldable pub relayed : AnthropicStreamEvent → Option (List ℕ)
relayed e = if equals e.kind (codes "content_block_delta") then delta_text e.delta else none

-- The generator.
unfoldable pub stream_from : Counters → List Incoming → List ChatStreamEvent
unfolding count_event relayed is_retryable
stream_from c [] =
    done_event (record { input_tokens = c.input_tokens; output_tokens = c.output_tokens })
      c.stop_reason
    ∷ []
stream_from c (breaks message status ∷ rest) = error_event message (is_retryable status) ∷ []
stream_from c (event e ∷ rest) = yield_if (relayed e) (stream_from (count_event c e) rest)

unfoldable pub claude_stream : List Incoming → List ChatStreamEvent
unfolding stream_from
claude_stream incoming =
    stream_from (record { input_tokens = 0; output_tokens = 0; stop_reason = none }) incoming

-- Text, then one `done` or one `error`, and nothing behind it.
abbrev pub EndsOnce : List ChatStreamEvent → Type 0
EndsOnce [] = ⊥
EndsOnce (text_event t ∷ es) = EndsOnce es
EndsOnce (done_event usage stop ∷ es) = es ≡ []
EndsOnce (error_event m retryable ∷ es) = es ≡ []

yield_if-EndsOnce :
    (o : Option (List ℕ)) (es : List ChatStreamEvent) → EndsOnce es → EndsOnce (yield_if o es)
yield_if-EndsOnce none es h = h
yield_if-EndsOnce (some t) es h = h

stream_from-EndsOnce : (c : Counters) (incoming : List Incoming) → EndsOnce (stream_from c incoming)
unfolding stream_from
stream_from-EndsOnce c [] = refl
stream_from-EndsOnce c (breaks message status ∷ rest) = refl
stream_from-EndsOnce c (event e ∷ rest) =
    yield_if-EndsOnce (relayed e) _ (stream_from-EndsOnce (count_event c e) rest)

-- Whatever the provider sends, and wherever its stream breaks, the chat stream is text and then
-- exactly one closing event, `done` or `error`, with nothing behind it.
pub claude_stream-EndsOnce : (incoming : List Incoming) → EndsOnce (claude_stream incoming)
unfolding claude_stream
claude_stream-EndsOnce incoming = stream_from-EndsOnce _ incoming
