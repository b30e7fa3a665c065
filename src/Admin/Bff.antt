-- ===== src/Admin/Bff.antt =====
-- admin/app/api: the route handlers between the browser and the API, with admin/lib/server-api.ts and
-- admin/lib/session.ts.
pub mod Calls
use ai_support_agent_builder.Prelude.{
  ℕ, List, [], ◌∷◌, ◌++◌, Option, none, some, Bool, true, false, ◌&&◌, ◌||◌, not, if◌then◌else◌,
  ◌==◌, leb, ltb, ◌*◌,
}
use ai_support_agent_builder.Text.{codes, equals, is_empty}
use ai_support_agent_builder.Claims.{is_truthy}
use ai_support_agent_builder.Storage.ObjectKey.{is_uuid}
use ai_support_agent_builder.Admin.Paths.{map_auth_error}

pub data Method : Type 0 where
  get post patch delete : Method

pub data Payload : Type 0 where
  nothing form : Payload
  text : List ℕ → Payload

-- A call of the API, with the bearer token of its header.
pub record ApiCall : Type 0 where
  pub method : Method
  pub path : List ℕ
  pub token : Option (List ℕ)
  pub payload : Payload

-- Its answer: an exception, or a status (one that may come with a body) with a JSON body (`none` where it cannot be read) and
-- whether there is a stream.
pub record Upstream : Type 0 where
  pub status : ℕ
  pub json : Option (List ℕ)
  pub has_body : Bool

pub data ApiAnswer : Type 0 where
  unreachable : ApiAnswer
  answered : Upstream → ApiAnswer

pub data Content : Type 0 where
  error : List ℕ → Content
  done_ok empty_object stream : Content
  json : List ℕ → Content
  plain : List ℕ → Content

-- The cookie is the value that is set: a token, or the empty one that is expired at once.
pub record Reply : Type 0 where
  pub status : ℕ
  pub content : Content
  pub cookie : Option (List ℕ)

-- A reply with the calls that were made for it.
pub record Handled : Type 0 where
  pub reply : Reply
  pub calls : List ApiCall

abbrev pub reply : ℕ → Content → Reply
reply status content = record { status = status; content = content; cookie = none }

abbrev pub without_call : ℕ → Content → Handled
without_call status content = record { reply = reply status content; calls = [] }

abbrev pub is_ok : ℕ → Bool
is_ok status = leb 200 status && leb status 299

abbrev pub or_empty : Option (List ℕ) → Content
or_empty none = empty_object
or_empty (some s) = json s

-- `NextResponse.json(data, { status: upstream.status })`, with the `catch`.
unfoldable pub relay : ApiAnswer → Reply
relay unreachable = reply 502 (error (codes "Cannot reach the server."))
relay (answered u) = reply u.status (or_empty u.json)

-- The same where a 204 without a body is turned into a 200.
unfoldable pub relay_deleted : ApiAnswer → Reply
unfolding relay
relay_deleted unreachable = relay unreachable
relay_deleted (answered u) = if u.status == 204 then reply 200 done_ok else relay (answered u)

-- The stream is passed through; the text is that of an answer that is no stream.
unfoldable pub relay_stream : List ℕ → ApiAnswer → Reply
relay_stream failure unreachable = reply 502 (plain (codes "upstream unavailable"))
relay_stream failure (answered u) =
    if not (is_ok u.status) || not u.has_body
    then reply (if u.status == 0 then 502 else u.status) (plain failure)
    else reply 200 stream

-- The form that the browser posts: its declared length (`none` where it is no number), and whether
-- the body can be read.
pub record FormRequest : Type 0 where
  pub declared_length : Option ℕ
  pub readable : Bool

abbrev pub max_upload_bytes : ℕ
max_upload_bytes = 25 * 1024 * 1024

abbrev pub is_too_large : Option ℕ → Bool
is_too_large none = false
is_too_large (some n) = ltb max_upload_bytes n

-- What the browser asks for, behind the session.
pub data Request : Type 0 where
  list_assistants : Request
  patch_assistant : List ℕ → List ℕ → Request
  list_keys mint_key : List ℕ → Request
  revoke_key : List ℕ → List ℕ → Request
  retrieve chat : List ℕ → Request
  list_documents : Option (List ℕ) → Request
  upload : FormRequest → Request
  delete_document document_events : List ℕ → Request

-- A form that the API accepts or refuses, behind the schema of the page: the text that is posted.
pub data AuthRequest : Type 0 where
  login signup : Option (List ℕ) → AuthRequest
  logout : AuthRequest

-- The API; `encodeURIComponent`; the first message of a schema's error at signup; and the token of
-- an answer's body.
pub record Outside : Type 0 where
  pub call : ApiCall → ApiAnswer
  pub encode_uri_component : List ℕ → List ℕ
  pub signup_issue : List ℕ
  pub token_of : List ℕ → Option (List ℕ)

module _ (out : Outside) where
  -- `fetch` and what is made of its answer.
  abbrev pub forward : ApiCall → (ApiAnswer → Reply) → Handled
  forward c f = record { reply = f (out.call c); calls = c ∷ [] }

  -- With `bearer()`.
  abbrev pub with_bearer : List ℕ → Method → List ℕ → Payload → ApiCall
  with_bearer token method path payload = record {
    method = method;
    path = path;
    token = some token;
    payload = payload;
  }

  abbrev pub invalid_id : Handled
  invalid_id = without_call 400 (error (codes "invalid id"))

  abbrev pub get_assistants : List ℕ → Handled
  get_assistants token = forward (with_bearer token get (codes "/assistants") nothing) relay

  abbrev pub forward_patch : List ℕ → List ℕ → List ℕ → Handled
  forward_patch token id body =
      if not (is_uuid id)
      then invalid_id
      else forward (with_bearer token patch (codes "/assistants/" ++ id) (text body)) relay

  -- `GET` and `POST` of the keys.
  abbrev pub forward_keys : List ℕ → Method → List ℕ → Handled
  forward_keys token method id =
      if not (is_uuid id)
      then invalid_id
      else forward
          (with_bearer token method (codes "/assistants/" ++ (id ++ codes "/api-keys")) nothing)
          relay

  abbrev pub forward_revocation : List ℕ → List ℕ → List ℕ → Handled
  forward_revocation token id key =
      if not (is_uuid id) || not (is_uuid key)
      then invalid_id
      else forward
          (with_bearer token delete (codes "/assistants/" ++ (id ++ (codes "/api-keys/" ++ key)))
            nothing)
          relay_deleted

  abbrev pub forward_retrieve : List ℕ → List ℕ → Handled
  forward_retrieve token body =
      forward (with_bearer token post (codes "/playground/retrieve") (text body)) relay

  abbrev pub forward_chat : List ℕ → List ℕ → Handled
  forward_chat token body =
      forward (with_bearer token post (codes "/chat") (text body))
        (relay_stream (codes "chat error"))

  -- `searchParams.get('assistantId') ?? ''`
  abbrev pub searched : Option (List ℕ) → List ℕ
  searched none = []
  searched (some id) = id

  abbrev pub get_documents : List ℕ → Option (List ℕ) → Handled
  get_documents token id =
      forward
        (with_bearer token get
          (codes "/documents?assistantId=" ++ out.encode_uri_component (searched id)) nothing)
        relay

  abbrev pub forward_upload : List ℕ → FormRequest → Handled
  forward_upload token f =
      if is_too_large f.declared_length
      then without_call 413 (error (codes "File too large."))
      else if not f.readable
      then without_call 400 (error (codes "Invalid upload."))
      else forward (with_bearer token post (codes "/documents") form) relay

  abbrev pub forward_deletion : List ℕ → List ℕ → Handled
  forward_deletion token id =
      if not (is_uuid id)
      then invalid_id
      else forward (with_bearer token delete (codes "/documents/" ++ id) nothing) relay_deleted

  abbrev pub forward_events : List ℕ → List ℕ → Handled
  forward_events token id =
      if not (is_uuid id)
      then without_call 400 (plain (codes "invalid id"))
      else forward (with_bearer token get (codes "/documents/" ++ (id ++ codes "/events")) nothing)
          (relay_stream (codes "stream error"))

  -- Behind the session.
  unfoldable pub handle : List ℕ → Request → Handled
  unfolding is_uuid relay relay_deleted relay_stream
  handle token list_assistants = get_assistants token
  handle token (patch_assistant id body) = forward_patch token id body
  handle token (list_keys id) = forward_keys token get id
  handle token (mint_key id) = forward_keys token post id
  handle token (revoke_key id key) = forward_revocation token id key
  handle token (retrieve body) = forward_retrieve token body
  handle token (chat body) = forward_chat token body
  handle token (list_documents id) = get_documents token id
  handle token (upload f) = forward_upload token f
  handle token (delete_document id) = forward_deletion token id
  handle token (document_events id) = forward_events token id

  -- The two streams refuse with a plain text.
  abbrev pub unauthorized : Request → Handled
  unauthorized (chat body) = without_call 401 (plain (codes "unauthorized"))
  unauthorized (document_events id) = without_call 401 (plain (codes "unauthorized"))
  unauthorized r = without_call 401 (error (codes "unauthorized"))

  -- `sessionToken()` in front of the handlers: the cookie of the session.
  unfoldable pub serve : Option (List ℕ) → Request → Handled
  unfolding handle
  serve none r = unauthorized r
  serve (some token) r = if is_empty token then unauthorized r else handle token r

  abbrev pub unexpected : Reply
  unexpected = reply 502 (error (codes "Unexpected server response."))

  abbrev pub with_token : Option (List ℕ) → Reply
  with_token none = unexpected
  with_token (some token) =
      if is_empty token
      then unexpected
      else record { status = 200; content = done_ok; cookie = some token }

  abbrev pub with_data : Option (List ℕ) → Reply
  with_data none = unexpected
  with_data (some s) = with_token (out.token_of s)

  -- Behind `fetch` of a login or a signup.
  unfoldable pub authenticate : ApiAnswer → Reply
  unfolding map_auth_error
  authenticate unreachable = reply 502 (error (codes "Cannot reach the server. Try again shortly."))
  authenticate (answered u) =
      if not (is_ok u.status)
      then reply u.status (error (map_auth_error u.status))
      else with_data u.json

  abbrev pub public_call : List ℕ → List ℕ → ApiCall
  public_call path body = record { method = post; path = path; token = none; payload = text body }

  unfoldable pub post_login : Option (List ℕ) → Handled
  unfolding authenticate
  post_login none = without_call 400 (error (codes "Please enter a valid email and password."))
  post_login (some body) = forward (public_call (codes "/auth/login") body) authenticate

  unfoldable pub post_signup : Option (List ℕ) → Handled
  unfolding authenticate
  post_signup none = without_call 400 (error out.signup_issue)
  post_signup (some body) = forward (public_call (codes "/auth/signup") body) authenticate

  abbrev pub post_logout : Handled
  post_logout = record {
    reply = record { status = 200; content = done_ok; cookie = some [] };
    calls = [];
  }

  unfoldable pub serve_auth : AuthRequest → Handled
  unfolding post_login post_signup
  serve_auth (login body) = post_login body
  serve_auth (signup body) = post_signup body
  serve_auth logout = post_logout
