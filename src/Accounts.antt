-- ===== src/Accounts.antt =====
-- api/src/auth and api/src/middleware/tenant-context.ts: signup, login, the exchange of an API key,
-- and the token in front of the protected routes.
pub mod Sessions
use ai_support_agent_builder.Prelude.{
  ℕ, List, [], ◌∷◌, Option, none, some, Bool, true, false, ◌&&◌, ◌||◌, not, if◌then◌else◌, ◌==◌,
  drop, take, length,
}
use ai_support_agent_builder.Text.{codes, includes, is_empty, starts_with_ci, span, is_space}
use ai_support_agent_builder.Claims.{TenantClaims}

-- The payload of a token, with the short names of the claims.
pub record Payload : Type 0 where
  pub tid : Option (List ℕ)
  pub sub : Option (List ℕ)
  pub aid : Option (List ℕ)

pub record User : Type 0 where
  pub user_id : List ℕ
  pub tenant_id : List ℕ
  pub password_hash : List ℕ

pub record ResolvedKey : Type 0 where
  pub tenant_id : List ℕ
  pub assistant_id : List ℕ

-- What the SQL function for a signup does: the ids of the new rows, or the message of its error.
pub data Bootstrap : Type 0 where
  created : List ℕ → List ℕ → Bootstrap
  failed : List ℕ → Bootstrap

-- The environment: jose, zod's test for a uuid, argon2, SHA-256, the SQL functions, the test for a
-- published assistant of a tenant, and the configured secret.
pub record Services : Type 0 where
  pub secret : List ℕ
  pub sign : Payload → List ℕ → List ℕ
  pub jwt_verify : List ℕ → List ℕ → Option Payload
  pub is_uuid : List ℕ → Bool
  pub hash_password : List ℕ → List ℕ
  pub verify_password : List ℕ → List ℕ → Bool
  pub hash_api_key : List ℕ → List ℕ
  pub create_tenant_and_owner : List ℕ → List ℕ → List ℕ → Bootstrap
  pub find_user_by_email : List ℕ → Option User
  pub resolve_api_key : List ℕ → Option ResolvedKey
  pub is_published : List ℕ → List ℕ → Bool

pub record SignupInput : Type 0 where
  pub tenant_name : List ℕ
  pub email : List ℕ
  pub password : List ℕ

pub record LoginInput : Type 0 where
  pub email : List ℕ
  pub password : List ℕ

pub record AuthResult : Type 0 where
  pub token : List ℕ
  pub tenant_id : List ℕ
  pub user_id : List ℕ

-- A result, an `AuthError` with its status, or another error.
pub data Auth {ℓ} (A : Type ℓ) : Type ℓ where
  authed : A → Auth A
  auth_error : List ℕ → ℕ → Auth A
  thrown : List ℕ → Auth A

abbrev pub dummy_hash : List ℕ
dummy_hash =
    codes
      "$argon2id$v=19$m=19456,t=2,p=1$1z9fmYLDxziaT+rU+ImbTg$abr8wd9HpjYd1lr/iq/NRUvOMXU30XkN61NL1M4ZpVg"

unfoldable pub is_email_taken : List ℕ → Bool
unfolding includes
is_email_taken s =
    includes s (codes "email already registered")
    || includes s (codes "unique_violation")
    || includes s (codes "23505")

pub data Admission : Type 0 where
  unauthorized : List ℕ → Admission
  admitted : TenantClaims → Admission

-- A status with a token or an error in the body.
pub data AuthResponse : Type 0 where
  token_body error_body : ℕ → List ℕ → AuthResponse

abbrev pub invalid_request : AuthResponse
invalid_request = error_body 400 (codes "invalid request")

-- Behind a service: the token of its result, or `sendError`.
abbrev pub respond {ℓ} : {A : Type ℓ} → ℕ → (A → List ℕ) → Auth A → AuthResponse
respond status token (authed a) = token_body status (token a)
respond status token (auth_error message code) = error_body code message
respond status token (thrown message) = error_body 500 (codes "internal error")

-- A claim that is absent or a uuid.
abbrev pub optional_uuid : (List ℕ → Bool) → Option (List ℕ) → Bool
optional_uuid is_uuid none = true
optional_uuid is_uuid (some s) = is_uuid s

-- The claims of a payload that fits the schema.
abbrev pub parse_payload :
    (List ℕ → Bool) → Option (List ℕ) → Option (List ℕ) → Option (List ℕ) → Option TenantClaims
parse_payload is_uuid none sub aid = none
parse_payload is_uuid (some tid) sub aid =
    if is_uuid tid && optional_uuid is_uuid sub && optional_uuid is_uuid aid
    then some (record { tenant_id = tid; user_id = sub; assistant_id = aid })
    else none

-- The rest of `/^Bearer\s+(\S+)\s*$/i`; the classes are disjoint, so each part is as long as it can
-- be. First the end, with the lengths of the spaces and of the token.
unfoldable pub token_at : ℕ → ℕ → List ℕ → Option (List ℕ)
unfolding span
token_at spaces letters value =
    let behind = drop letters value in
    if spaces == 0 || letters == 0 || not (span is_space behind == length behind)
    then none
    else some (take letters value)

unfoldable pub token_in : ℕ → List ℕ → Option (List ℕ)
unfolding span token_at
token_in spaces value = token_at spaces (span (λ c. not (is_space c)) value) value

unfoldable pub behind_scheme : List ℕ → Option (List ℕ)
unfolding span token_in
behind_scheme rest = let spaces = span is_space rest in token_in spaces (drop spaces rest)

unfoldable pub bearer_token : Option (List ℕ) → Option (List ℕ)
unfolding starts_with_ci behind_scheme
bearer_token none = none
bearer_token (some header) =
    if not (starts_with_ci header (codes "bearer")) then none else behind_scheme (drop 6 header)

-- `makeTenantContext`: a refusal, or the claims with which the handler runs.
abbrev pub after_verification : Option TenantClaims → Admission
after_verification none = unauthorized (codes "invalid or expired token")
after_verification (some claims) = admitted claims

module _ (s : Services) where
  unfoldable pub sign_tenant_token : TenantClaims → List ℕ → List ℕ
  sign_tenant_token claims secret =
      s.sign
        (record { tid = some claims.tenant_id; sub = claims.user_id; aid = claims.assistant_id })
        secret

  abbrev pub claims_of : Option Payload → Option TenantClaims
  claims_of none = none
  claims_of (some p) = parse_payload s.is_uuid p.tid p.sub p.aid

  unfoldable pub verify_tenant_token : List ℕ → List ℕ → Option TenantClaims
  verify_tenant_token token secret = claims_of (s.jwt_verify token secret)

  unfoldable pub issue : List ℕ → List ℕ → AuthResult
  unfolding sign_tenant_token
  issue tenant user = record {
    token =
        sign_tenant_token (record { tenant_id = tenant; user_id = some user; assistant_id = none })
          s.secret;
    tenant_id = tenant;
    user_id = user;
  }

  abbrev pub after_bootstrap : Bootstrap → Auth AuthResult
  after_bootstrap (created tenant user) = authed (issue tenant user)
  after_bootstrap (failed message) =
      if is_email_taken message
      then auth_error (codes "email already registered") 409
      else thrown message

  unfoldable pub signup : SignupInput → Auth AuthResult
  unfolding issue is_email_taken
  signup input =
      after_bootstrap
        (s.create_tenant_and_owner input.tenant_name input.email (s.hash_password input.password))

  -- Behind the lookup of the email; an unknown email also runs a verification.
  abbrev pub check_password : List ℕ → Option User → Auth AuthResult
  check_password password none =
      let ok = s.verify_password dummy_hash password in auth_error (codes "invalid credentials") 401
  check_password password (some user) =
      if s.verify_password user.password_hash password
      then authed (issue user.tenant_id user.user_id)
      else auth_error (codes "invalid credentials") 401

  unfoldable pub login : LoginInput → Auth AuthResult
  unfolding issue
  login input = check_password input.password (s.find_user_by_email input.email)

  abbrev pub issue_for_key : Option ResolvedKey → Auth (List ℕ)
  issue_for_key none = auth_error (codes "invalid api key") 401
  issue_for_key (some key) =
      if s.is_published key.tenant_id key.assistant_id
      then authed (
          sign_tenant_token
            (record {
              tenant_id = key.tenant_id;
              user_id = none;
              assistant_id = some key.assistant_id;
            })
            s.secret)
      else auth_error (codes "assistant is not published") 403

  unfoldable pub exchange_api_key : List ℕ → Auth (List ℕ)
  unfolding sign_tenant_token
  exchange_api_key raw_key = issue_for_key (s.resolve_api_key (s.hash_api_key raw_key))

  abbrev pub with_bearer : List ℕ → Option (List ℕ) → Admission
  with_bearer secret none = unauthorized (codes "missing bearer token")
  with_bearer secret (some token) = after_verification (verify_tenant_token token secret)

  unfoldable pub make_tenant_context : List ℕ → Option (List ℕ) → Admission
  unfolding bearer_token verify_tenant_token
  make_tenant_context secret header = with_bearer secret (bearer_token header)

  -- The routes, behind the schema: none where the body does not fit.
  unfoldable pub post_signup : Option SignupInput → AuthResponse
  unfolding signup
  post_signup none = invalid_request
  post_signup (some input) = respond 201 (λ r. r.token) (signup input)

  unfoldable pub post_login : Option LoginInput → AuthResponse
  unfolding login
  post_login none = invalid_request
  post_login (some input) = respond 200 (λ r. r.token) (login input)

  unfoldable pub post_api_key : Option (List ℕ) → AuthResponse
  unfolding exchange_api_key
  post_api_key none = invalid_request
  post_api_key (some raw_key) = respond 200 (λ token. token) (exchange_api_key raw_key)
