-- ===== src/Admin/Forms/Sessions.antt =====
-- The forms with the route handlers that they call.
use ai_support_agent_builder.Prelude.{
  ℕ, List, Option, none, some, not, not-true, if_elim, ◌≡◌, refl,
}
use ai_support_agent_builder.Text.{codes, is_empty}
use ai_support_agent_builder.Admin.Bff.{
  unreachable, answered as answers, Outside, Reply, Content, ApiAnswer, login, signup, serve_auth,
  post_login, post_signup, public_call, authenticate, with_data, with_token, is_ok, error, done_ok,
  stream, empty_object, json, plain,
}
use ai_support_agent_builder.Admin.Paths.{safe_internal_path, dashboard_path}
use ai_support_agent_builder.Admin.Forms.{
  FormAnswer, answered, submit_login, submit_signup, submitted,
}

-- What the page's `fetch` brings of a reply: the text of its `error`, which only errors have.
abbrev pub error_of : Content → Option (List ℕ)
error_of (error m) = some m
error_of done_ok = none
error_of empty_object = none
error_of stream = none
error_of (json s) = none
error_of (plain s) = none

abbrev pub form_answer : Reply → FormAnswer
form_answer r = answered (is_ok r.status) (error_of r.content)

-- Where the visitor goes from a reply.
abbrev pub sent_with : List ℕ → Option (List ℕ) → Option (List ℕ)
sent_with path none = none
sent_with path (some token) = some path

abbrev pub Agrees : Reply → Type 0
Agrees r =
    (path message : List ℕ)
    → (submitted path message (form_answer r)).pushed ≡ sent_with path r.cookie

module _ (out : Outside) where
  with_token-Agrees : (o : Option (List ℕ)) → Agrees (with_token out o)
  with_token-Agrees none = λ path message. refl
  with_token-Agrees (some token) =
      if_elim Agrees (is_empty token) _ _ (λ e path message. refl) (λ e path message. refl)

  with_data-Agrees : (o : Option (List ℕ)) → Agrees (with_data out o)
  with_data-Agrees none = λ path message. refl
  with_data-Agrees (some s) = with_token-Agrees (out.token_of s)

  authenticate-Agrees : (a : ApiAnswer) → Agrees (authenticate out a)
  unfolding authenticate
  authenticate-Agrees unreachable = λ path message. refl
  authenticate-Agrees (answers u) =
      if_elim Agrees (not (is_ok u.status)) _ _ (λ e path message. rw (not-true _ e) refl)
        (λ e. with_data-Agrees u.json)

  login-Agrees : (body : Option (List ℕ)) → Agrees (serve_auth out (login body)).reply
  unfolding serve_auth post_login post_signup
  login-Agrees none = λ path message. refl
  login-Agrees (some body) =
      authenticate-Agrees (out.call (public_call out (codes "/auth/login") body))

  signup-Agrees : (body : Option (List ℕ)) → Agrees (serve_auth out (signup body)).reply
  unfolding serve_auth post_login post_signup
  signup-Agrees none = λ path message. refl
  signup-Agrees (some body) =
      authenticate-Agrees (out.call (public_call out (codes "/auth/signup") body))

  -- Through the route handlers and whatever the API answers: the forms for login and signup send the
  -- visitor on exactly where the reply sets a session, the login to the local path that was asked
  -- for, the signup to the dashboard.
  pub forms-sent :
      (next body : Option (List ℕ))
      → ((submit_login next (form_answer (serve_auth out (login body)).reply)).pushed
          ≡ sent_with (safe_internal_path next) (serve_auth out (login body)).reply.cookie)
        × ((submit_signup (form_answer (serve_auth out (signup body)).reply)).pushed
            ≡ sent_with dashboard_path (serve_auth out (signup body)).reply.cookie)
  unfolding submit_login submit_signup
  forms-sent next body = (
    login-Agrees body (safe_internal_path next) (codes "Login failed."),
    signup-Agrees body dashboard_path (codes "Sign up failed."),
  )
