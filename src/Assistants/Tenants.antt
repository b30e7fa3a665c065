-- ===== src/Assistants/Tenants.antt =====
-- Who the administration serves, and what it can touch.
use ai_support_agent_builder.Prelude.{
  ℕ, List, keep, Option, none, some, Bool, true, false, ◌&&◌, ◌||◌, not, if_elim, ◌==◌, length, ◌≡◌,
  refl, sym, ap, ◌∙◌, Bool-cases, inl, inr,
}
use ai_support_agent_builder.Text.{codes, equals, equals_iff}
use ai_support_agent_builder.Claims.{TenantClaims, is_admin_session}
use ai_support_agent_builder.Storage.ObjectKey.{is_uuid}
use ai_support_agent_builder.Ingest.World.{find_row, is_found}
use ai_support_agent_builder.Ingest.Rows.{keep-keep-other, keep-update_rows-other}
use ai_support_agent_builder.Assistants.{
  Tables, ApiKeyRow, Handled, Request, list_assistants, patches, mints, lists_keys, revokes, serve,
  says, Patch, patched, is_own_assistant, is_named_key, require_admin, get_assistants,
  patch_assistant, with_patch, parse_patch, post_api_key, get_api_keys, delete_api_key,
  find_by_hash, GeneratedKey, PatchBody, update_assistant,
}

-- A session that is no admin's gets 403 from each of the five routes, and changes nothing.
pub serve-forbidden :
    (fails : Bool) (claims : TenantClaims) (request : Request) (t : Tables)
    → is_admin_session claims ≡ false
    → serve fails claims request t ≡ (says 403 (codes "admin only"), t)
unfolding serve require_admin
serve-forbidden fails claims list_assistants t h = rw h refl
serve-forbidden fails claims (patches id body) t h = rw h refl
serve-forbidden fails claims (mints assistant generated id) t h = rw h refl
serve-forbidden fails claims (lists_keys assistant) t h = rw h refl
serve-forbidden fails claims (revokes assistant id) t h = rw h refl

&&-false : (b : Bool) → (b && false) ≡ false
&&-false true = refl
&&-false false = refl

-- The rows of one tenant.
pub rows_of : List ℕ → Tables → Tables
rows_of tenant t = record {
  assistants = keep (λ row. equals row.tenant_id tenant) t.assistants;
  api_keys = keep (λ row. equals row.tenant_id tenant) t.api_keys;
}

module _ (claims : TenantClaims) (tenant : List ℕ)
    (differs : equals claims.tenant_id tenant ≡ false) where
  not_both : (s : List ℕ) → equals s tenant ≡ true → equals s claims.tenant_id ≡ false
  not_both s h = elim (Bool-cases (equals s claims.tenant_id)) [
    | inl e ↦
        let a = (equals_iff s claims.tenant_id).0 e in
        let b = (equals_iff s tenant).0 h in
        let c = (equals_iff claims.tenant_id tenant).1 (sym a ∙ b) in absurd (cc)
    | inr e ↦ e
  ]

  &&-not :
      (a : Bool) (s : List ℕ) → equals s tenant ≡ true → (a && equals s claims.tenant_id) ≡ false
  &&-not true s h = not_both s h
  &&-not false s h = refl

  abbrev Untouched : Tables → Handled → Type 0
  Untouched t h = rows_of tenant h.1 ≡ rows_of tenant t

  admin-Untouched :
      (t : Tables) (h : Handled) → Untouched t h → Untouched t (require_admin claims t h)
  unfolding require_admin
  admin-Untouched t h u =
      if_elim (Untouched t) (not (is_admin_session claims)) _ _ (λ e. refl) (λ e. u)

  update-Untouched :
      (id : List ℕ) (t : Tables) (p : Patch) → Untouched t (update_assistant claims id t p)
  unfolding rows_of
  update-Untouched id t p =
      if_elim (Untouched t) (length (keep (is_own_assistant id claims.tenant_id) t.assistants) == 0)
        _ _ (λ e. refl)
        (λ e.
          ap (λ rows. record { assistants = rows; api_keys = (rows_of tenant t).api_keys })
            (keep-update_rows-other (is_own_assistant id claims.tenant_id)
              (λ row. equals row.tenant_id tenant)
              (λ row h. &&-not (equals row.assistant.id id) row.tenant_id h) (patched p)
              (λ row. refl) t.assistants))

  with_patch-Untouched :
      (fails : Bool) (id : List ℕ) (t : Tables) (p : Option Patch)
      → Untouched t (with_patch fails claims id t p)
  with_patch-Untouched fails id t none = refl
  with_patch-Untouched fails id t (some p) =
      if_elim (Untouched t) fails _ _ (λ e. refl) (λ e. update-Untouched id t p)

  patch_assistant-Untouched :
      (fails : Bool) (id : List ℕ) (body : Option PatchBody) (t : Tables)
      → Untouched t (patch_assistant fails claims id body t)
  unfolding patch_assistant
  patch_assistant-Untouched fails id body t = admin-Untouched t _ (
      if_elim (Untouched t) (not (is_uuid id)) _ _ (λ e. refl)
        (λ e. with_patch-Untouched fails id t (parse_patch body)))

  post_api_key-Untouched :
      (fails : Bool) (assistant : List ℕ) (generated : GeneratedKey) (id : List ℕ) (t : Tables)
      → Untouched t (post_api_key fails claims assistant generated id t)
  unfolding post_api_key rows_of keep
  post_api_key-Untouched fails assistant generated id t = admin-Untouched t _ (
      if_elim (Untouched t) (not (is_uuid assistant)) _ _ (λ e. refl)
        (λ e.
          if_elim (Untouched t) fails _ _ (λ e. refl)
            (λ e.
              if_elim (Untouched t)
                (not
                  (is_found (find_row (is_own_assistant assistant claims.tenant_id) t.assistants)))
                _ _ (λ e. refl)
                (λ e.
                  if_elim (Untouched t) (is_found (find_by_hash generated.hash t)) _ _ (λ e. refl)
                    (λ e. rw differs refl)))))

  delete_api_key-Untouched :
      (fails : Bool) (assistant id : List ℕ) (t : Tables)
      → Untouched t (delete_api_key fails claims assistant id t)
  unfolding delete_api_key rows_of
  delete_api_key-Untouched fails assistant id t = admin-Untouched t _ (
      if_elim (Untouched t) (not (is_uuid assistant) || not (is_uuid id)) _ _ (λ e. refl)
        (λ e.
          if_elim (Untouched t) fails _ _ (λ e. refl)
            (λ e.
              if_elim (Untouched t)
                (length (keep (is_named_key id assistant claims.tenant_id) t.api_keys) == 0) _ _
                (λ e. refl)
                (λ e.
                  ap
                    (λ rows. record { assistants = (rows_of tenant t).assistants; api_keys = rows })
                    (keep-keep-other (is_named_key id assistant claims.tenant_id)
                      (λ row. equals row.tenant_id tenant) (λ row h. named-not row h)
                      t.api_keys)))))
    where
      named-not :
          (row : ApiKeyRow)
          → equals row.tenant_id tenant ≡ true
          → is_named_key id assistant claims.tenant_id row ≡ false
      named-not row h =
          ap (λ b. equals row.id id && b)
            (&&-not (equals row.assistant_id assistant) row.tenant_id h)
          ∙ &&-false (equals row.id id)

  get_assistants-Untouched :
      (fails : Bool) (t : Tables) → Untouched t (get_assistants fails claims t)
  unfolding get_assistants
  get_assistants-Untouched fails t =
      admin-Untouched t _ (if_elim (Untouched t) fails _ _ (λ e. refl) (λ e. refl))

  get_api_keys-Untouched :
      (fails : Bool) (assistant : List ℕ) (t : Tables)
      → Untouched t (get_api_keys fails claims assistant t)
  unfolding get_api_keys
  get_api_keys-Untouched fails assistant t = admin-Untouched t _ (
      if_elim (Untouched t) (not (is_uuid assistant)) _ _ (λ e. refl)
        (λ e. if_elim (Untouched t) fails _ _ (λ e. refl) (λ e. refl)))

  -- No request under one tenant changes an assistant or a key of another tenant, whatever the
  -- identifiers in it are.
  pub serve-isolated :
      (fails : Bool) (request : Request) (t : Tables)
      → rows_of tenant (serve fails claims request t).1 ≡ rows_of tenant t
  unfolding serve
  serve-isolated fails list_assistants t = get_assistants-Untouched fails t
  serve-isolated fails (patches id body) t = patch_assistant-Untouched fails id body t
  serve-isolated fails (mints assistant generated id) t =
      post_api_key-Untouched fails assistant generated id t
  serve-isolated fails (lists_keys assistant) t = get_api_keys-Untouched fails assistant t
  serve-isolated fails (revokes assistant id) t = delete_api_key-Untouched fails assistant id t
