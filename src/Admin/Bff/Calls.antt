-- ===== src/Admin/Bff/Calls.antt =====
-- What the route handlers ask of the API, and what they give to the browser.
use ai_support_agent_builder.Prelude.{
  not-false, ℕ, List, [], ◌∷◌, ◌++◌, Option, none, some, Bool, true, false, ◌||◌, not, if_elim,
  if◌then◌else◌, ◌≡◌, refl, sym, ap, ◌∙◌, some_inj,
}
use ai_support_agent_builder.Text.{codes, is_empty}
use ai_support_agent_builder.Parsing.Assemble.Anchors.{All}
use ai_support_agent_builder.Storage.ObjectKey.{is_uuid}
use ai_support_agent_builder.Admin.Bff.{
  ApiAnswer, unreachable, answered, Upstream, done_ok, Reply, Handled, Request, list_assistants,
  patch_assistant, list_keys, mint_key, revoke_key, retrieve, chat, list_documents, upload,
  delete_document, document_events, Outside, handle, serve, authenticate, is_ok, with_token,
  with_data, is_too_large, unauthorized,
}

-- The paths of the API that the handlers may use: an identifier in them is a uuid.
pub data IsScoped : List ℕ → Type 0 where
  assistants_path : IsScoped (codes "/assistants")
  retrieve_path : IsScoped (codes "/playground/retrieve")
  chat_path : IsScoped (codes "/chat")
  documents_path : IsScoped (codes "/documents")
  documents_query : (q : List ℕ) → IsScoped (codes "/documents?assistantId=" ++ q)
  assistant_path : (id : List ℕ) → is_uuid id ≡ true → IsScoped (codes "/assistants/" ++ id)
  keys_path :
      (id : List ℕ)
      → is_uuid id ≡ true
      → IsScoped (codes "/assistants/" ++ (id ++ codes "/api-keys"))
  key_path :
      (id key : List ℕ)
      → is_uuid id ≡ true
      → is_uuid key ≡ true
      → IsScoped (codes "/assistants/" ++ (id ++ (codes "/api-keys/" ++ key)))
  document_path : (id : List ℕ) → is_uuid id ≡ true → IsScoped (codes "/documents/" ++ id)
  events_path :
      (id : List ℕ) → is_uuid id ≡ true → IsScoped (codes "/documents/" ++ (id ++ codes "/events"))

true-both : (a b : Bool) → (not a || not b) ≡ false → (a ≡ true) × (b ≡ true)
true-both true true h = (refl, refl)
true-both true false h = cc
true-both false b h = cc

-- Every call has the token and a path in scope.
abbrev pub Guarded : List ℕ → Handled → Type 0
Guarded token h = All (λ c. (c.token ≡ some token) × IsScoped c.path) h.calls

module _ (out : Outside) where
  handle-Guarded : (token : List ℕ) (r : Request) → Guarded token (handle out token r)
  unfolding handle
  handle-Guarded token list_assistants = ((refl, assistants_path), tt)
  handle-Guarded token (patch_assistant id body) =
      if_elim (Guarded token) (not (is_uuid id)) _ _ (λ e. tt)
        (λ e. ((refl, assistant_path id (not-false _ e)), tt))
  handle-Guarded token (list_keys id) =
      if_elim (Guarded token) (not (is_uuid id)) _ _ (λ e. tt)
        (λ e. ((refl, keys_path id (not-false _ e)), tt))
  handle-Guarded token (mint_key id) =
      if_elim (Guarded token) (not (is_uuid id)) _ _ (λ e. tt)
        (λ e. ((refl, keys_path id (not-false _ e)), tt))
  handle-Guarded token (revoke_key id key) =
      if_elim (Guarded token) (not (is_uuid id) || not (is_uuid key)) _ _ (λ e. tt)
        (λ e. let (a, b) = true-both _ _ e in ((refl, key_path id key a b), tt))
  handle-Guarded token (retrieve body) = ((refl, retrieve_path), tt)
  handle-Guarded token (chat body) = ((refl, chat_path), tt)
  handle-Guarded token (list_documents none) =
      ((refl, documents_query (out.encode_uri_component [])), tt)
  handle-Guarded token (list_documents (some id)) =
      ((refl, documents_query (out.encode_uri_component id)), tt)
  handle-Guarded token (upload f) =
      if_elim (Guarded token) (is_too_large f.declared_length) _ _ (λ e. tt)
        (λ e.
          if_elim (Guarded token) (not f.readable) _ _ (λ e. tt)
            (λ e. ((refl, documents_path), tt)))
  handle-Guarded token (delete_document id) =
      if_elim (Guarded token) (not (is_uuid id)) _ _ (λ e. tt)
        (λ e. ((refl, document_path id (not-false _ e)), tt))
  handle-Guarded token (document_events id) =
      if_elim (Guarded token) (not (is_uuid id)) _ _ (λ e. tt)
        (λ e. ((refl, events_path id (not-false _ e)), tt))

  -- Refused: 401, and no call.
  abbrev pub Refused : Handled → Type 0
  Refused h = (h.reply.status ≡ 401) × (h.calls ≡ [])

  unauthorized-Refused : (r : Request) → Refused (unauthorized out r)
  unauthorized-Refused list_assistants = (refl, refl)
  unauthorized-Refused (patch_assistant id body) = (refl, refl)
  unauthorized-Refused (list_keys id) = (refl, refl)
  unauthorized-Refused (mint_key id) = (refl, refl)
  unauthorized-Refused (revoke_key id key) = (refl, refl)
  unauthorized-Refused (retrieve body) = (refl, refl)
  unauthorized-Refused (chat body) = (refl, refl)
  unauthorized-Refused (list_documents id) = (refl, refl)
  unauthorized-Refused (upload f) = (refl, refl)
  unauthorized-Refused (delete_document id) = (refl, refl)
  unauthorized-Refused (document_events id) = (refl, refl)

  -- What a session gets: without a token it is refused; with one each call carries it.
  abbrev pub SessionBound : Option (List ℕ) → Handled → Type 0
  SessionBound none h = Refused h
  SessionBound (some token) h = if is_empty token then Refused h else Guarded token h

  -- Without a session, or with an empty token, each of the eleven requests is answered 401 and the
  -- API is not called. With a session every call carries its token, and its path is one of those of
  -- the API, in which each identifier is a uuid.
  pub serve-SessionBound :
      (session : Option (List ℕ)) (r : Request) → SessionBound session (serve out session r)
  unfolding serve
  serve-SessionBound none r = unauthorized-Refused r
  serve-SessionBound (some []) r = unauthorized-Refused r
  serve-SessionBound (some (c ∷ s)) r = handle-Guarded (c ∷ s) r

  -- A token in the cookie came from the API.
  pub record Issued (answer : ApiAnswer) (token : List ℕ) (r : Reply) : Type 0 where
    pub upstream : Upstream
    pub answered_by : answer ≡ answered upstream
    pub successful : is_ok upstream.status ≡ true
    pub content : List ℕ
    pub body : upstream.json ≡ some content
    pub issued : out.token_of content ≡ some token
    pub named : is_empty token ≡ false
    pub sealed : r ≡ record { status = 200; content = done_ok; cookie = some token }

  with_token-Issued :
      (u : Upstream) (content : List ℕ) (o : Option (List ℕ)) (token : List ℕ)
      → is_ok u.status ≡ true
      → u.json ≡ some content
      → out.token_of content ≡ o
      → (with_token out o).cookie ≡ some token
      → Issued (answered u) token (with_token out o)
  with_token-Issued u content none token ok e f h = absurd (cc)
  with_token-Issued u content (some []) token ok e f h = absurd (cc)
  with_token-Issued u content (some (c ∷ s)) token ok e f h =
      let same = some_inj h in
      record {
        upstream = u;
        answered_by = refl;
        successful = ok;
        content = content;
        body = e;
        issued = f ∙ h;
        named = ap is_empty (sym same);
        sealed = ap (λ t. record { status = 200; content = done_ok; cookie = t }) h;
      }

  with_data-Issued :
      (u : Upstream) (content : Option (List ℕ)) (token : List ℕ)
      → is_ok u.status ≡ true
      → u.json ≡ content
      → (with_data out content).cookie ≡ some token
      → Issued (answered u) token (with_data out content)
  with_data-Issued u none token ok e h = absurd (cc)
  with_data-Issued u (some content) token ok e h =
      with_token-Issued u content (out.token_of content) token ok e refl h

  -- Where a login or a signup sets a session, its token is not empty and came from a successful
  -- answer of the API, and the reply holds nothing but the cookie and a fixed body.
  pub authenticate-Issued :
      (answer : ApiAnswer) (token : List ℕ)
      → (authenticate out answer).cookie ≡ some token
      → Issued answer token (authenticate out answer)
  unfolding authenticate
  authenticate-Issued unreachable token = λ h. absurd (cc)
  authenticate-Issued (answered u) token =
      let P = λ (r : Reply). r.cookie ≡ some token → Issued (answered u) token r in
      if_elim P (not (is_ok u.status)) _ _ (λ e h. absurd (cc))
        (λ e h. with_data-Issued u u.json token (not-false _ e) refl h)
