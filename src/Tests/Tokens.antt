-- ===== src/Tests/Tokens.antt =====
-- The sessions, with tokens that carry their payload in plain sight.
use ai_support_agent_builder.Prelude.{
  ℕ, List, [], ◌∷◌, ◌++◌, Option, none, some, true, false, if◌then◌else◌, ltb, ◌==◌, ◌+◌, ◌-◌, ◌≡◌,
  refl, arith, ap, ◌∙◌,
}
use ai_support_agent_builder.Text.{codes, is_space, equals}
use ai_support_agent_builder.Claims.{TenantClaims}
use ai_support_agent_builder.Accounts.{
  Services, Payload, LoginInput, created, login, issue, exchange_api_key, authed, admitted,
  make_tenant_context, sign_tenant_token,
}
use ai_support_agent_builder.Accounts.Sessions.{
  Solid, Compact, Session, Consumer, login-Session, exchange_api_key-Consumer,
}

-- A text behind the control codes, with its end.
abbrev shift : List ℕ → List ℕ → List ℕ
shift [] r = 3 ∷ r
shift (c ∷ s) r = (c + 70000) ∷ shift s r

abbrev enc : Option (List ℕ) → List ℕ → List ℕ
enc none r = 1 ∷ r
enc (some s) r = 2 ∷ shift s r

abbrev unshift : List ℕ → List ℕ × List ℕ
unshift [] = ([], [])
unshift (c ∷ r) =
    let rest = unshift r in if ltb c 70000 then ([], r) else ((c - 70000) ∷ rest.0, rest.1)

abbrev dec_some : List ℕ × List ℕ → Option (List ℕ) × List ℕ
dec_some p = (some p.0, p.1)

abbrev dec : List ℕ → Option (List ℕ) × List ℕ
dec [] = (none, [])
dec (c ∷ r) = if c == 1 then (none, r) else dec_some (unshift r)

not_low : (c : ℕ) → ltb (c + 70000) 70000 ≡ false
not_low c = ground arith

shifted_back : (c : ℕ) → c + 70000 - 70000 ≡ c
shifted_back c = omega arith

unshift-shift : (s r : List ℕ) → unshift (shift s r) ≡ (s, r)
unshift-shift [] r = refl
unshift-shift (c ∷ s) r = rw (not_low c, shifted_back c, unshift-shift s r) refl

dec-enc : (x : Option (List ℕ)) (r : List ℕ) → dec (enc x r) ≡ (x, r)
dec-enc none r = refl
dec-enc (some s) r = ap dec_some (unshift-shift s r)

not_space : (c : ℕ) → is_space (c + 70000) ≡ false
unfolding is_space
not_space c = ground arith

Solid-shift : (s r : List ℕ) → Solid r → Solid (shift s r)
unfolding is_space
Solid-shift [] r a = (refl, a)
Solid-shift (c ∷ s) r a = (not_space c, Solid-shift s r a)

Solid-enc : (x : Option (List ℕ)) (r : List ℕ) → Solid r → Solid (enc x r)
unfolding is_space
Solid-enc none r a = (refl, a)
Solid-enc (some s) r a = (refl, Solid-shift s r a)

abbrev pub sign : Payload → List ℕ → List ℕ
sign p k = enc p.tid (enc p.sub (enc p.aid []))

abbrev with_aid : Option (List ℕ) → Option (List ℕ) → Option (List ℕ) × List ℕ → Payload
with_aid t u a = record { tid = t; sub = u; aid = a.0 }

abbrev with_sub : Option (List ℕ) → Option (List ℕ) × List ℕ → Payload
with_sub t u = with_aid t u.0 (dec u.1)

abbrev payload_of : Option (List ℕ) × List ℕ → Payload
payload_of t = with_sub t.0 (dec t.1)

sign-verifies : (p : Payload) (k : List ℕ) → some (payload_of (dec (sign p k))) ≡ some p
sign-verifies p k =
    ap (λ t. some (payload_of t)) (dec-enc p.tid (enc p.sub (enc p.aid [])))
    ∙ ap (λ u. some (with_sub p.tid u)) (dec-enc p.sub (enc p.aid []))
    ∙ ap (λ a. some (with_aid p.tid p.sub a)) (dec-enc p.aid [])

Compact-Solid : (x : Option (List ℕ)) (r : List ℕ) → Solid (enc x r) → Compact (enc x r)
Compact-Solid none r a = a
Compact-Solid (some s) r a = a

sign-Compact : (p : Payload) (k : List ℕ) → Compact (sign p k)
sign-Compact p k =
    Compact-Solid p.tid _ (Solid-enc p.tid _ (Solid-enc p.sub _ (Solid-enc p.aid [] tt)))

abbrev pub services : Services
services = record {
  secret = codes "k";
  sign = sign;
  jwt_verify = λ t k. some (payload_of (dec t));
  is_uuid = λ s. true;
  hash_password = λ s. s;
  verify_password = equals;
  hash_api_key = λ s. s;
  create_tenant_and_owner = λ name email hash. created (codes "t") (codes "u");
  find_user_by_email = λ email.
      some (record { user_id = codes "u"; tenant_id = codes "t"; password_hash = codes "pw" });
  resolve_api_key = λ hash. some (record { tenant_id = codes "t"; assistant_id = codes "a" });
  is_published = λ tenant assistant. true;
}

abbrev input : LoginInput
input = record { email = codes "e"; password = codes "pw" }

logged_in : login services input ≡ authed (issue services (codes "t") (codes "u"))
unfolding login equals
logged_in = refl

abbrev session : TenantClaims
session = record { tenant_id = codes "t"; user_id = some (codes "u"); assistant_id = none }

session-admitted :
    make_tenant_context services services.secret
      (some (codes "Bearer " ++ (issue services (codes "t") (codes "u")).token))
    ≡ admitted session
unfolding make_tenant_context issue is_space
session-admitted = refl

login-Session_example : Session services sign-Compact sign-verifies input session
login-Session_example =
    login-Session services sign-Compact sign-verifies input (issue services (codes "t") (codes "u"))
      session logged_in session-admitted

abbrev scoped : TenantClaims
scoped = record { tenant_id = codes "t"; user_id = none; assistant_id = some (codes "a") }

exchanged :
    exchange_api_key services (codes "key")
    ≡ authed (sign_tenant_token services scoped services.secret)
unfolding exchange_api_key
exchanged = refl

scoped-admitted :
    make_tenant_context services services.secret
      (some (codes "Bearer " ++ sign_tenant_token services scoped services.secret))
    ≡ admitted scoped
unfolding make_tenant_context sign_tenant_token is_space
scoped-admitted = refl

exchange_api_key-Consumer_example :
    Consumer services sign-Compact sign-verifies (codes "key") scoped
exchange_api_key-Consumer_example =
    exchange_api_key-Consumer services sign-Compact sign-verifies (codes "key")
      (sign_tenant_token services scoped services.secret) scoped exchanged scoped-admitted
