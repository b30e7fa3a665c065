-- ===== src/Assistants/Keys.antt =====
-- The life of an API key: from the administration to the exchange of api/src/auth/auth-service.ts.
use ai_support_agent_builder.Prelude.{
  ◌&&◌, arith, ℕ, List, [], ◌∷◌, keep, Option, none, some, Bool, false, ◌||◌, not, if_elim,
  if◌then◌else◌, ◌==◌, length, ◌≡◌, refl, ap, ◌∙◌, subst, Bool-cases, inl, inr,
}
use ai_support_agent_builder.Text.{codes, equals, equals_iff}
use ai_support_agent_builder.Claims.{TenantClaims, is_admin_session}
use ai_support_agent_builder.Storage.ObjectKey.{is_uuid}
use ai_support_agent_builder.Ingest.World.{find_row, is_found}
use ai_support_agent_builder.Chat.Route.{is_published}
use ai_support_agent_builder.Accounts.{
  Services, ResolvedKey, Auth, authed, auth_error, exchange_api_key, issue_for_key,
  sign_tenant_token,
}
use ai_support_agent_builder.Assistants.{
  Tables, AssistantRow, ApiKeyRow, Handled, says, Patch, is_own_assistant, require_admin,
  with_patch, post_api_key, delete_api_key, find_by_hash, generate_api_key,
}

-- The services of the accounts over the rows.
abbrev pub resolved : Option ApiKeyRow → Option ResolvedKey
resolved none = none
resolved (some row) = some (record { tenant_id = row.tenant_id; assistant_id = row.assistant_id })

abbrev pub is_published_row : Option AssistantRow → Bool
is_published_row none = false
is_published_row (some row) = is_published row.assistant.status

abbrev pub over : Services → Tables → Services
over s t = record s {
  resolve_api_key = λ hash. resolved (find_by_hash hash t);
  is_published = λ tenant assistant.
      is_published_row (find_row (is_own_assistant assistant tenant) t.assistants);
}

-- The exchange at a key of the assistant.
abbrev pub exchanged : Services → List ℕ → List ℕ → Bool → Auth (List ℕ)
exchanged s tenant assistant published =
    if published
    then authed (
        sign_tenant_token s
          (record { tenant_id = tenant; user_id = none; assistant_id = some assistant }) s.secret)
    else auth_error (codes "assistant is not published") 403

abbrev hash_is : List ℕ → ApiKeyRow → Bool
hash_is hash row = equals row.key_hash hash

-- The hashes differ in pairs: the database's constraint.
abbrev pub Distinct : List ApiKeyRow → Type 0
Distinct [] = Unit
Distinct (row ∷ rows) = (find_row (hash_is row.key_hash) rows ≡ none) × Distinct rows

find_row-keep-none {ℓ} :
    {A : Type ℓ} (test p : A → Bool) (rows : List A)
    → find_row test rows ≡ none
    → find_row test (keep p rows) ≡ none
unfolding find_row keep
find_row-keep-none test p [] h = refl
find_row-keep-none test p (row ∷ rows) h = elim (Bool-cases (test row)) [
  | inl e ↦ let k = rw e at h in absurd (cc)
  | inr e ↦
      let k = rw e at h in
      elim (Bool-cases (p row)) [
        | inl f ↦ rw (f, e) (find_row-keep-none test p rows k)
        | inr f ↦ rw f (find_row-keep-none test p rows k)
      ]
]

abbrev kept : (ApiKeyRow → Bool) → Option ApiKeyRow → Option ApiKeyRow
kept named none = none
kept named (some row) = if named row then none else some row

find_row-keep-kept :
    (named : ApiKeyRow → Bool) (hash : List ℕ) (rows : List ApiKeyRow)
    → Distinct rows
    → find_row (hash_is hash) (keep (λ row. not (named row)) rows)
      ≡ kept named (find_row (hash_is hash) rows)
unfolding find_row keep
find_row-keep-kept named hash [] d = refl
find_row-keep-kept named hash (row ∷ rows) (a, d) = elim (Bool-cases (hash_is hash row)) [
  | inl e ↦
      let same = (equals_iff row.key_hash hash).0 e in
      let gone = subst (λ h. find_row (hash_is h) rows ≡ none) same a in
      elim (Bool-cases (named row)) [
        | inl f ↦ rw (f, e, f) (find_row-keep-none (hash_is hash) (λ r. not (named r)) rows gone)
        | inr f ↦ rw (f, e, f) refl
      ]
  | inr e ↦ elim (Bool-cases (named row)) [
    | inl f ↦ rw (f, e) (find_row-keep-kept named hash rows d)
    | inr f ↦ rw (f, e) (find_row-keep-kept named hash rows d)
  ]
]

-- The key with this identifier, of this assistant and this tenant.
abbrev pub is_revoked : List ℕ → List ℕ → List ℕ → ApiKeyRow → Bool
is_revoked id assistant tenant row =
    equals row.id id && (equals row.assistant_id assistant && equals row.tenant_id tenant)

-- What an exchange becomes behind a revocation of the keys that are named.
abbrev pub without {ℓ} : {A : Type ℓ} → (ApiKeyRow → Bool) → Option ApiKeyRow → Auth A → Auth A
without named none before = before
without named (some row) before =
    if named row then auth_error (codes "invalid api key") 401 else before

pub admin-status :
    (claims : TenantClaims) (t : Tables) (h : Handled) (P : Handled → Type 0)
    → P (says 403 (codes "admin only"), t)
    → P h
    → P (require_admin claims t h)
unfolding require_admin
admin-status claims t h P a b = if_elim P (not (is_admin_session claims)) _ _ (λ e. a) (λ e. b)

module _ (s : Services) where
  issue-without :
      (t : Tables) (named : ApiKeyRow → Bool) (o : Option ApiKeyRow)
      → issue_for_key (over s t) (resolved (kept named o))
        ≡ without named o (issue_for_key (over s t) (resolved o))
  issue-without t named none = refl
  issue-without t named (some row) = elim (Bool-cases (named row)) [
    | inl e ↦ rw e refl
    | inr e ↦ rw e refl
  ]

  -- Where the hashes are distinct: after a revocation that answers 204, the exchange of exactly the
  -- revoked key of the assistant is refused with 401; of every other key it is as before.
  pub delete_api_key-exchange :
      (fails : Bool) (claims : TenantClaims) (assistant id : List ℕ) (t : Tables) (raw_key : List ℕ)
      → Distinct t.api_keys
      → (delete_api_key fails claims assistant id t).0.status ≡ 204
      → exchange_api_key (over s (delete_api_key fails claims assistant id t).1) raw_key
        ≡ without
            (is_revoked id assistant claims.tenant_id)
            (find_by_hash (s.hash_api_key raw_key) t)
            (exchange_api_key (over s t) raw_key)
  unfolding delete_api_key exchange_api_key find_by_hash
  delete_api_key-exchange fails claims assistant id t raw_key d =
      let named = is_revoked id assistant claims.tenant_id in
      let found = find_row (hash_is (s.hash_api_key raw_key)) t.api_keys in
      let P = λ (h : Handled).
        h.0.status ≡ 204
        → exchange_api_key (over s h.1) raw_key
          ≡ without named found (exchange_api_key (over s t) raw_key) in
      admin-status claims t _ P (λ h. absurd (omega arith))
        (if_elim P (not (is_uuid assistant) || not (is_uuid id)) _ _ (λ e h. absurd (omega arith))
          (λ e.
            if_elim P fails _ _ (λ e h. absurd (omega arith))
              (λ e.
                if_elim P (length (keep named t.api_keys) == 0) _ _ (λ e h. absurd (omega arith))
                  (λ e h.
                    ap (λ o. issue_for_key (over s t) (resolved o))
                      (find_row-keep-kept named (s.hash_api_key raw_key) t.api_keys d)
                    ∙ issue-without t named found))))

  -- The key that the administration mints is, at once, a key of the assistant and of the
  -- administrator's tenant: its exchange gives their token where the assistant is published, and 403
  -- where it is a draft.
  pub post_api_key-exchange :
      (fails : Bool) (claims : TenantClaims) (assistant random id : List ℕ) (t : Tables)
      → (post_api_key fails claims assistant (generate_api_key s.hash_api_key random) id t).0.status
        ≡ 201
      → exchange_api_key
          (over s
            (post_api_key fails claims assistant (generate_api_key s.hash_api_key random) id t).1)
          (generate_api_key s.hash_api_key random).key
        ≡ exchanged s claims.tenant_id assistant
            (is_published_row (find_row (is_own_assistant assistant claims.tenant_id) t.assistants))
  unfolding post_api_key exchange_api_key find_by_hash find_row generate_api_key
  post_api_key-exchange fails claims assistant random id t =
      let generated = generate_api_key s.hash_api_key random in
      let own = find_row (is_own_assistant assistant claims.tenant_id) t.assistants in
      let P = λ (h : Handled).
        h.0.status ≡ 201
        → exchange_api_key (over s h.1) generated.key
          ≡ exchanged s claims.tenant_id assistant (is_published_row own) in
      admin-status claims t _ P (λ h. absurd (omega arith))
        (if_elim P (not (is_uuid assistant)) _ _ (λ e h. absurd (omega arith))
          (λ e.
            if_elim P fails _ _ (λ e h. absurd (omega arith))
              (λ e.
                if_elim P (not (is_found own)) _ _ (λ e h. absurd (omega arith))
                  (λ e.
                    if_elim P (is_found (find_by_hash generated.hash t)) _ _
                      (λ e h. absurd (omega arith))
                      (λ e h. rw ((equals_iff generated.hash generated.hash).1 refl) refl)))))

is_found-none {ℓ} : {A : Type ℓ} (o : Option A) → is_found o ≡ false → o ≡ none
is_found-none none h = refl
is_found-none (some a) h = absurd (cc)

with_patch-api_keys :
    (fails : Bool) (claims : TenantClaims) (id : List ℕ) (t : Tables) (p : Option Patch)
    → (with_patch fails claims id t p).1.api_keys ≡ t.api_keys
with_patch-api_keys fails claims id t none = refl
with_patch-api_keys fails claims id t (some p) =
    let P = λ (h : Handled). h.1.api_keys ≡ t.api_keys in
    if_elim P fails _ _ (λ e. refl)
      (λ e.
        if_elim P (length (keep (is_own_assistant id claims.tenant_id) t.assistants) == 0) _ _
          (λ e. refl) (λ e. refl))
