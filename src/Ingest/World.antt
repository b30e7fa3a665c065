-- ===== src/Ingest/World.antt =====
-- The rows the worker reads and writes (api/prisma/schema.prisma), without time stamps.
use ai_support_agent_builder.Prelude.{
  ℕ, List, [], ◌∷◌, Option, none, some, Bool, true, false, ◌&&◌, if◌then◌else◌,
}
use ai_support_agent_builder.Text.{equals, to_lower_case}
use ai_support_agent_builder.Number.{Double}
use ai_support_agent_builder.Parsing.Types.{SourceType}

pub data DocumentStatus : Type 0 where
  queued uploaded parsing embedding ready failed_status : DocumentStatus

pub record DocumentRow : Type 0 where
  pub id : List ℕ
  pub tenant_id : List ℕ
  pub assistant_id : List ℕ
  pub title : List ℕ
  pub source_type : SourceType
  pub storage_key : List ℕ
  pub status : DocumentStatus
  pub page_count : Option ℕ
  pub warnings : List (List ℕ)
  pub error : Option (List ℕ)

pub record ChunkRow : Type 0 where
  pub id : List ℕ
  pub tenant_id : List ℕ
  pub document_id : List ℕ
  pub assistant_id : List ℕ
  pub content : List ℕ
  pub token_count : ℕ
  pub page : Option ℕ
  pub section : Option (List ℕ)
  pub char_start : ℕ
  pub char_end : ℕ
  pub content_hash : List ℕ
  pub vector : Option (List Double)

pub record AssistantRow : Type 0 where
  pub id : List ℕ
  pub tenant_id : List ℕ
  pub embedding_model : Option (List ℕ)

-- An object of the storage: its key and its bytes.
pub record StoredObject : Type 0 where
  pub key : List ℕ
  pub body : List ℕ

-- `drawn` counts the identifiers that `randomUUID` has given out.
pub record World : Type 0 where
  pub documents : List DocumentRow
  pub chunks : List ChunkRow
  pub assistants : List AssistantRow
  pub objects : List StoredObject
  pub drawn : ℕ

-- The payload of a job of the ingest queue.
pub record IngestJobData : Type 0 where
  pub document_id : List ℕ
  pub tenant_id : List ℕ
  pub assistant_id : List ℕ

-- The database compares uuids by their value, so without case.
abbrev pub same_uuid : List ℕ → List ℕ → Bool
same_uuid a b = equals (to_lower_case a) (to_lower_case b)

-- The row that a query by `id` sees under the tenant's row-level security.
abbrev pub is_document : List ℕ → List ℕ → DocumentRow → Bool
is_document id tenant row = same_uuid row.id id && equals row.tenant_id tenant

unfoldable pub find_row {ℓ} : {A : Type ℓ} → (A → Bool) → List A → Option A
find_row test [] = none
find_row test (row ∷ rows) = let rest = find_row test rows in if test row then some row else rest

-- The rows with those that pass the test changed.
unfoldable pub update_rows {ℓ} : {A : Type ℓ} → (A → Bool) → (A → A) → List A → List A
update_rows test change [] = []
update_rows test change (row ∷ rows) =
    let rest = update_rows test change rows in (if test row then change row else row) ∷ rest

unfoldable pub find_document : List ℕ → List ℕ → World → Option DocumentRow
unfolding find_row
find_document id tenant w = find_row (is_document id tenant) w.documents

abbrev pub is_found {ℓ} : {A : Type ℓ} → Option A → Bool
is_found none = false
is_found (some a) = true
