-- ===== src/Accounts/Sessions.antt =====
-- The tokens that a login and a key exchange give, when they come back in a header.
use ai_support_agent_builder.Prelude.{
  ℕ, suc, List, [], ◌∷◌, ◌++◌, Option, none, some, Bool, true, false, ◌&&◌, not, if_elim, ◌≡◌, refl,
  sym, ap, ◌∙◌, drop, take, length, ◌==◌, arith, subst,
}
use ai_support_agent_builder.Text.{codes, span, is_space, is_empty}
use ai_support_agent_builder.Claims.{TenantClaims, is_admin_session, is_truthy}
use ai_support_agent_builder.Parsing.Assemble.Anchors.{All}
use ai_support_agent_builder.Accounts.{
  Services, Payload, User, ResolvedKey, LoginInput, AuthResult, authed, admitted, bearer_token,
  behind_scheme, token_at, token_in, make_tenant_context, with_bearer, after_verification,
  verify_tenant_token, parse_payload, claims_of, issue, login, check_password, exchange_api_key,
  issue_for_key, sign_tenant_token, optional_uuid,
}

abbrev pub Solid : List ℕ → Type 0
Solid s = All (λ c. is_space c ≡ false) s

span-Solid : (s : List ℕ) → Solid s → span (λ c. not (is_space c)) s ≡ length s
unfolding span
span-Solid [] a = refl
span-Solid (c ∷ s) (e, a) = rw (e, span-Solid s a) refl

drop-all : (s : List ℕ) → drop (length s) s ≡ []
drop-all [] = refl
drop-all (c ∷ s) = drop-all s

take-all : (s : List ℕ) → take (length s) s ≡ s
take-all [] = refl
take-all (c ∷ s) = ap (λ t. c ∷ t) (take-all s)

suc-not_zero : (n : ℕ) → (suc n == 0) ≡ false
suc-not_zero n = ground arith

token_at-all : (c : ℕ) (s : List ℕ) → token_at 1 (length (c ∷ s)) (c ∷ s) ≡ some (c ∷ s)
unfolding token_at span
token_at-all c s = rw (drop-all s, take-all s, suc-not_zero (length s)) refl

space_is_space : is_space 32 ≡ true
unfolding is_space
space_is_space = refl

span-space : (c : ℕ) (s : List ℕ) → is_space c ≡ false → span is_space (32 ∷ c ∷ s) ≡ 1
unfolding span
span-space c s e = rw (space_is_space, e) refl

behind_scheme-token :
    (c : ℕ) (s : List ℕ) → Solid (c ∷ s) → behind_scheme (32 ∷ c ∷ s) ≡ some (c ∷ s)
unfolding behind_scheme token_in
behind_scheme-token c s (e, a) =
    ap (λ n. token_in n (drop n (32 ∷ c ∷ s))) (span-space c s e)
    ∙ ap (λ n. token_at 1 n (c ∷ s)) (span-Solid (c ∷ s) (e, a))
    ∙ token_at-all c s

-- A header with one token gives the token.
bearer_token-token :
    (c : ℕ) (s : List ℕ)
    → Solid (c ∷ s)
    → bearer_token (some (codes "Bearer " ++ c ∷ s)) ≡ some (c ∷ s)
unfolding bearer_token ai_support_agent_builder.Text.starts_with_ci
bearer_token-token c s a = behind_scheme-token c s a

abbrev pub Compact : List ℕ → Type 0
Compact [] = ⊥
Compact (c ∷ s) = Solid (c ∷ s)

bearer_token-Compact :
    (token : List ℕ) → Compact token → bearer_token (some (codes "Bearer " ++ token)) ≡ some token
bearer_token-Compact [] v = absurd v
bearer_token-Compact (c ∷ s) a = bearer_token-token c s a

parsed-same :
    (test : List ℕ → Bool) (claims other : TenantClaims)
    → after_verification
        (parse_payload test (some claims.tenant_id) claims.user_id claims.assistant_id)
      ≡ admitted other
    → other ≡ claims
parsed-same test claims other =
    if_elim (λ o. after_verification o ≡ admitted other → other ≡ claims)
      (test claims.tenant_id
        && optional_uuid test claims.user_id
        && optional_uuid test claims.assistant_id)
      (some claims) none (λ e h. cc) (λ e h. absurd (cc))

authed_inj {ℓ} : {A : Type ℓ} {a b : A} → authed a ≡ authed b → a ≡ b
authed_inj h = cc

-- The facts about jose: the compact form is not empty and has no space, and what is signed with a
-- secret verifies under it, with its payload.
module _ (s : Services) (compact : (p : Payload) (k : List ℕ) → Compact (s.sign p k))
    (verifies : (p : Payload) (k : List ℕ) → s.jwt_verify (s.sign p k) k ≡ some p) where
  -- A token that was signed comes back through the header as its claims or not at all.
  signed-admitted :
      (claims other : TenantClaims)
      → make_tenant_context s s.secret
          (some (codes "Bearer " ++ sign_tenant_token s claims s.secret))
        ≡ admitted other
      → other ≡ claims
  unfolding make_tenant_context sign_tenant_token verify_tenant_token
  signed-admitted claims other h =
      let back = ap (with_bearer s s.secret) (bearer_token-Compact _ (compact _ _)) in
      let seen =
        ap (λ p. after_verification (claims_of s p))
          (verifies
            (record {
              tid = some claims.tenant_id;
              sub = claims.user_id;
              aid = claims.assistant_id;
            })
            s.secret) in
      parsed-same s.is_uuid claims other (sym (back ∙ seen) ∙ h)

  -- The session of a user whose password verifies.
  pub record Session (input : LoginInput) (claims : TenantClaims) : Type 0 where
    pub user : User
    pub found : s.find_user_by_email input.email ≡ some user
    pub password : s.verify_password user.password_hash input.password ≡ true
    pub tenant : claims.tenant_id ≡ user.tenant_id
    pub user_claim : claims.user_id ≡ some user.user_id
    pub no_assistant : claims.assistant_id ≡ none

  -- The token of an API key's published assistant.
  pub record Consumer (raw_key : List ℕ) (claims : TenantClaims) : Type 0 where
    pub key : ResolvedKey
    pub resolved : s.resolve_api_key (s.hash_api_key raw_key) ≡ some key
    pub published : s.is_published key.tenant_id key.assistant_id ≡ true
    pub tenant : claims.tenant_id ≡ key.tenant_id
    pub assistant : claims.assistant_id ≡ some key.assistant_id
    pub not_admin : is_admin_session claims ≡ false

  abbrev Admits : List ℕ → TenantClaims → Type 0
  Admits token claims =
      make_tenant_context s s.secret (some (codes "Bearer " ++ token)) ≡ admitted claims

  key-Consumer :
      (raw_key token : List ℕ) (claims : TenantClaims) (found : Option ResolvedKey)
      → s.resolve_api_key (s.hash_api_key raw_key) ≡ found
      → issue_for_key s found ≡ authed token
      → Admits token claims
      → Consumer raw_key claims
  unfolding is_admin_session is_truthy
  key-Consumer raw_key token claims none e = λ h m. absurd (cc)
  key-Consumer raw_key token claims (some key) e =
      if_elim (λ r. r ≡ authed token → Admits token claims → Consumer raw_key claims)
        (s.is_published key.tenant_id key.assistant_id) _ _
        (λ published h m.
          let same =
            signed-admitted _ claims (subst (λ t. Admits t claims) (sym (authed_inj h)) m) in
          record {
            key = key;
            resolved = e;
            published = published;
            tenant = ap (λ c. c.tenant_id) same;
            assistant = ap (λ c. c.assistant_id) same;
            not_admin = ap is_admin_session same;
          })
        (λ e h m. absurd (cc))

  -- Where a signed token is compact and verifies, with its payload, under its secret: the token that
  -- the exchange of an API key gives is let in, if at all, with the tenant and the assistant of the
  -- key, whose assistant was published, and never as an admin session.
  pub exchange_api_key-Consumer :
      (raw_key token : List ℕ) (claims : TenantClaims)
      → exchange_api_key s raw_key ≡ authed token
      → make_tenant_context s s.secret (some (codes "Bearer " ++ token)) ≡ admitted claims
      → Consumer raw_key claims
  unfolding exchange_api_key
  exchange_api_key-Consumer raw_key token claims h m = key-Consumer raw_key token claims _ refl h m

  user-Session :
      (input : LoginInput) (r : AuthResult) (claims : TenantClaims) (found : Option User)
      → s.find_user_by_email input.email ≡ found
      → check_password s input.password found ≡ authed r
      → Admits r.token claims
      → Session input claims
  unfolding issue
  user-Session input r claims none e = λ h m. absurd (cc)
  user-Session input r claims (some user) e =
      if_elim (λ o. o ≡ authed r → Admits r.token claims → Session input claims)
        (s.verify_password user.password_hash input.password) _ _
        (λ password h m.
          let token = ap (λ a. a.token) (authed_inj h) in
          let same = signed-admitted _ claims (subst (λ t. Admits t claims) (sym token) m) in
          record {
            user = user;
            found = e;
            password = password;
            tenant = ap (λ c. c.tenant_id) same;
            user_claim = ap (λ c. c.user_id) same;
            no_assistant = ap (λ c. c.assistant_id) same;
          })
        (λ e h m. absurd (cc))

  -- Where a signed token is compact and verifies, with its payload, under its secret: the token that
  -- a login gives is let in, if at all, as the session of the user with the email, whose password
  -- was verified, under that user's own tenant and without an assistant.
  pub login-Session :
      (input : LoginInput) (r : AuthResult) (claims : TenantClaims)
      → login s input ≡ authed r
      → make_tenant_context s s.secret (some (codes "Bearer " ++ r.token)) ≡ admitted claims
      → Session input claims
  unfolding login
  login-Session input r claims h m = user-Session input r claims _ refl h m
