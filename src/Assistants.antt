-- ===== src/Assistants.antt =====
-- api/src/routes/assistants.ts: the administration of assistants and of their API keys, over the
-- rows of the database without their time stamps. Identifiers are in their canonical spelling.
pub mod Tenants
pub mod Keys
use ai_support_agent_builder.Prelude.{
  ℕ, List, [], ◌∷◌, ◌++◌, map, keep, Option, none, some, Bool, true, false, ◌&&◌, ◌||◌, not,
  if◌then◌else◌, ◌==◌, length,
}
use ai_support_agent_builder.Text.{codes, equals}
use ai_support_agent_builder.Number.{
  Double, finite, pos, nan, minus_infinity, plus_infinity, negsuc, lt_double, whole,
}
use ai_support_agent_builder.Claims.{TenantClaims, is_admin_session}
use ai_support_agent_builder.Storage.ObjectKey.{is_uuid}
use ai_support_agent_builder.Ingest.World.{find_row, update_rows, is_found}
use ai_support_agent_builder.Chat.Route.{Assistant, AssistantStatus, draft, published}

pub record AssistantRow : Type 0 where
  pub tenant_id : List ℕ
  pub name : List ℕ
  pub assistant : Assistant

pub record ApiKeyRow : Type 0 where
  pub id : List ℕ
  pub tenant_id : List ℕ
  pub assistant_id : List ℕ
  pub key_hash : List ℕ

-- The rows: the assistants in the order of their creation, the keys with the newest first.
pub record Tables : Type 0 where
  pub assistants : List AssistantRow
  pub api_keys : List ApiKeyRow

-- What a query under the tenant's row-level security sees.
abbrev pub is_own_assistant : List ℕ → List ℕ → AssistantRow → Bool
is_own_assistant id tenant row = equals row.assistant.id id && equals row.tenant_id tenant

abbrev pub is_key_of : List ℕ → List ℕ → ApiKeyRow → Bool
is_key_of assistant tenant row = equals row.assistant_id assistant && equals row.tenant_id tenant

-- `key_hash` is unique, so there is one row at most.
unfoldable pub find_by_hash : List ℕ → Tables → Option ApiKeyRow
unfolding find_row equals
find_by_hash hash t = find_row (λ row. equals row.key_hash hash) t.api_keys

-- The body of a `PATCH`: the threshold behind the coercion `Number(…)`, where it is present, and the
-- status.
pub record PatchBody : Type 0 where
  pub refusal_threshold : Option Double
  pub status : Option (List ℕ)

pub record Patch : Type 0 where
  pub refusal_threshold : Option Double
  pub status : Option AssistantStatus

unfoldable pub is_nan : Double → Bool
is_nan nan = true
is_nan minus_infinity = false
is_nan (finite x) = false
is_nan plus_infinity = false

-- `z.coerce.number().min(0).max(1)`
unfoldable pub is_threshold : Double → Bool
unfolding is_nan lt_double whole
is_threshold d = not (is_nan d) && (not (lt_double d (whole 0)) && not (lt_double (whole 1) d))

-- A member of the schema: none where it does not fit.
abbrev pub threshold_member : Option Double → Option (Option Double)
threshold_member none = some none
threshold_member (some d) = if is_threshold d then some (some d) else none

abbrev pub status_member : Option (List ℕ) → Option (Option AssistantStatus)
status_member none = some none
status_member (some s) =
    if equals s (codes "DRAFT")
    then some (some draft)
    else if equals s (codes "PUBLISHED")
    then some (some published)
    else none

-- Behind the members: one of them is present.
abbrev pub refine : Option Double → Option AssistantStatus → Option Patch
refine none none = none
refine none (some status) = some (record { refusal_threshold = none; status = some status })
refine (some d) status = some (record { refusal_threshold = some d; status = status })

abbrev pub both : Option (Option Double) → Option (Option AssistantStatus) → Option Patch
both none status = none
both (some d) none = none
both (some d) (some status) = refine d status

-- `patchSchema`; none where the body is no object.
unfoldable pub parse_patch : Option PatchBody → Option Patch
unfolding is_threshold equals
parse_patch none = none
parse_patch (some body) = both (threshold_member body.refusal_threshold) (status_member body.status)

abbrev pub or_kept {ℓ} : {A : Type ℓ} → A → Option A → A
or_kept old none = old
or_kept old (some new) = new

abbrev pub patched : Patch → AssistantRow → AssistantRow
patched p row = record row {
  assistant = record row.assistant {
    refusal_threshold = or_kept row.assistant.refusal_threshold p.refusal_threshold;
    status = or_kept row.assistant.status p.status;
  };
}

pub record AssistantView : Type 0 where
  pub id : List ℕ
  pub name : List ℕ
  pub status : AssistantStatus
  pub model : List ℕ
  pub refusal_threshold : Double

abbrev pub assistant_view : AssistantRow → AssistantView
assistant_view row = record {
  id = row.assistant.id;
  name = row.name;
  status = row.assistant.status;
  model = row.assistant.model;
  refusal_threshold = row.assistant.refusal_threshold;
}

pub data Body : Type 0 where
  message : List ℕ → Body
  assistants_list : List AssistantView → Body
  patch_applied : List ℕ → Patch → Body
  key_minted : List ℕ → List ℕ → Body
  key_ids : List (List ℕ) → Body
  empty : Body

pub record Response : Type 0 where
  pub status : ℕ
  pub body : Body

abbrev pub says : ℕ → List ℕ → Response
says status m = record { status = status; body = message m }

abbrev pub internal_error : Response
internal_error = says 500 (codes "internal error")

-- An answer with the rows it leaves.
abbrev pub Handled : Type 0
Handled = Response × Tables

-- `requireAdmin` in front of a handler.
unfoldable pub require_admin : TenantClaims → Tables → Handled → Handled
unfolding is_admin_session
require_admin claims t handled =
    if not (is_admin_session claims) then (says 403 (codes "admin only"), t) else handled

-- `GET /assistants`; `fails` says that the database does.
unfoldable pub get_assistants : Bool → TenantClaims → Tables → Handled
unfolding require_admin
get_assistants fails claims t = require_admin claims t (
    if fails then (internal_error, t) else (
      record {
        status = 200;
        body =
            assistants_list (
              map assistant_view
                (keep (λ row. equals row.tenant_id claims.tenant_id) t.assistants));
      },
      t,
    ))

-- `updateMany` with the answer for its count.
abbrev pub update_assistant : TenantClaims → List ℕ → Tables → Patch → Handled
update_assistant claims id t p =
    if length (keep (is_own_assistant id claims.tenant_id) t.assistants) == 0
    then (says 404 (codes "assistant not found"), t)
    else (
      record { status = 200; body = patch_applied id p },
      record t {
        assistants = update_rows (is_own_assistant id claims.tenant_id) (patched p) t.assistants;
      },
    )

abbrev pub with_patch : Bool → TenantClaims → List ℕ → Tables → Option Patch → Handled
with_patch fails claims id t none =
    (says 400 (codes "refusalThreshold (0..1) and/or status (DRAFT|PUBLISHED)"), t)
with_patch fails claims id t (some p) =
    if fails then (internal_error, t) else update_assistant claims id t p

-- `PATCH /assistants/:id`
unfoldable pub patch_assistant : Bool → TenantClaims → List ℕ → Option PatchBody → Tables → Handled
unfolding require_admin parse_patch update_rows is_uuid
patch_assistant fails claims id body t = require_admin claims t (
    if not (is_uuid id)
    then (says 400 (codes "invalid assistant id"), t)
    else with_patch fails claims id t (parse_patch body))

-- `generateApiKey` (api/src/auth/api-key.ts), with the random part and the hash.
pub record GeneratedKey : Type 0 where
  pub key : List ℕ
  pub hash : List ℕ

unfoldable pub generate_api_key : (List ℕ → List ℕ) → List ℕ → GeneratedKey
generate_api_key sha256 random =
    let key = codes "asab_sk_" ++ random in record { key = key; hash = sha256 key }

abbrev pub new_key : TenantClaims → List ℕ → List ℕ → List ℕ → ApiKeyRow
new_key claims assistant id hash = record {
  id = id;
  tenant_id = claims.tenant_id;
  assistant_id = assistant;
  key_hash = hash;
}

-- The unique index on `key_hash` (api/prisma/schema.prisma), which refuses an insert.
abbrev pub is_taken : List ℕ → Tables → Bool
is_taken hash t = is_found (find_by_hash hash t)

-- `POST /assistants/:id/api-keys`, with the key that is generated and the identifier that its row
-- gets. An insert of a hash that is there fails.
unfoldable pub post_api_key :
    Bool → TenantClaims → List ℕ → GeneratedKey → List ℕ → Tables → Handled
unfolding require_admin is_uuid find_row find_by_hash
post_api_key fails claims assistant generated id t = require_admin claims t (
    if not (is_uuid assistant)
    then (says 400 (codes "invalid assistant id"), t)
    else if fails
    then (internal_error, t)
    else if not (is_found (find_row (is_own_assistant assistant claims.tenant_id) t.assistants))
    then (says 404 (codes "assistant not found"), t)
    else if is_taken generated.hash t
    then (internal_error, t)
    else (
      record { status = 201; body = key_minted id generated.key },
      record t { api_keys = new_key claims assistant id generated.hash ∷ t.api_keys },
    ))

-- `GET /assistants/:id/api-keys`
unfoldable pub get_api_keys : Bool → TenantClaims → List ℕ → Tables → Handled
unfolding require_admin is_uuid
get_api_keys fails claims assistant t = require_admin claims t (
    if not (is_uuid assistant)
    then (says 400 (codes "invalid assistant id"), t)
    else if fails
    then (internal_error, t)
    else (
      record {
        status = 200;
        body =
            key_ids (map (λ row. row.id) (keep (is_key_of assistant claims.tenant_id) t.api_keys));
      },
      t,
    ))

-- The rows that `deleteMany` takes.
abbrev pub is_named_key : List ℕ → List ℕ → List ℕ → ApiKeyRow → Bool
is_named_key id assistant tenant row = equals row.id id && is_key_of assistant tenant row

-- `DELETE /assistants/:id/api-keys/:keyId`
unfoldable pub delete_api_key : Bool → TenantClaims → List ℕ → List ℕ → Tables → Handled
unfolding require_admin is_uuid
delete_api_key fails claims assistant id t = require_admin claims t (
    if not (is_uuid assistant) || not (is_uuid id)
    then (says 400 (codes "invalid id"), t)
    else if fails
    then (internal_error, t)
    else if length (keep (is_named_key id assistant claims.tenant_id) t.api_keys) == 0
    then (says 404 (codes "api key not found"), t)
    else (
      record { status = 204; body = empty },
      record t {
        api_keys = keep (λ row. not (is_named_key id assistant claims.tenant_id row)) t.api_keys;
      },
    ))

-- The five routes.
pub data Request : Type 0 where
  list_assistants : Request
  patches : List ℕ → Option PatchBody → Request
  mints : List ℕ → GeneratedKey → List ℕ → Request
  lists_keys : List ℕ → Request
  revokes : List ℕ → List ℕ → Request

-- `assistantsRouter`
unfoldable pub serve : Bool → TenantClaims → Request → Tables → Handled
unfolding get_assistants patch_assistant post_api_key get_api_keys delete_api_key
serve fails claims list_assistants t = get_assistants fails claims t
serve fails claims (patches id body) t = patch_assistant fails claims id body t
serve fails claims (mints assistant generated id) t =
    post_api_key fails claims assistant generated id t
serve fails claims (lists_keys assistant) t = get_api_keys fails claims assistant t
serve fails claims (revokes assistant id) t = delete_api_key fails claims assistant id t
