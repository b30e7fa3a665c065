-- ===== src/Ingest/Store.antt =====
-- `PrismaDocumentStatusStore` of api/src/worker/document-store.ts.
use ai_support_agent_builder.Prelude.{
  ℕ, suc, ◌+◌, List, [], ◌∷◌, ◌++◌, keep, Option, none, some, Bool, true, false, ◌&&◌, not,
  if◌then◌else◌, leb, length,
}
use ai_support_agent_builder.Text.{codes, equals}
use ai_support_agent_builder.Number.{Double}
use ai_support_agent_builder.Effects.{Eff, Void, Ran, ran, failed, Message}
use ai_support_agent_builder.Parsing.Types.{SourceType}
use ai_support_agent_builder.Chunking.Chunker.{ChunkDraft}
use ai_support_agent_builder.Ingest.World.{
  World, DocumentRow, ChunkRow, AssistantRow, DocumentStatus, ready, queued, uploaded, parsing,
  embedding, failed_status, is_document, find_row, update_rows, find_document,
}

-- The error of `update` for a row that is not there.
abbrev pub not_found : Message
not_found = codes "P2025"

-- Where the row is found, the update is done.
abbrev pub update_if : Option DocumentRow → World → World → Ran World Void
update_if none w updated = failed w not_found
update_if (some row) w updated = ran updated tt

-- `tx.document.update`
unfoldable pub update_document : List ℕ → List ℕ → (DocumentRow → DocumentRow) → Eff World Void
unfolding find_document update_rows
update_document id tenant change w =
    update_if (find_document id tenant w) w
      (record w { documents = update_rows (is_document id tenant) change w.documents })

abbrev pub status_if : Option DocumentRow → Option DocumentStatus
status_if none = none
status_if (some row) = some row.status

unfoldable pub get_status : List ℕ → List ℕ → Eff World (Option DocumentStatus)
unfolding find_document
get_status id tenant w = ran w (status_if (find_document id tenant w))

abbrev pub with_status : DocumentStatus → DocumentRow → DocumentRow
with_status status row = record row { status = status; error = none }

unfoldable pub set_status : List ℕ → List ℕ → DocumentStatus → Eff World Void
unfolding update_document
set_status id tenant status = update_document id tenant (with_status status)

unfoldable pub is_ready : DocumentStatus → Bool
is_ready ready = true
is_ready queued = false
is_ready uploaded = false
is_ready parsing = false
is_ready embedding = false
is_ready failed_status = false

-- `updateMany`: no row is no error.
unfoldable pub mark_failed : List ℕ → List ℕ → Message → Eff World Void
unfolding update_rows is_ready
mark_failed id tenant error w =
    ran
      (record w {
        documents =
            update_rows (λ row. is_document id tenant row && not (is_ready row.status))
              (λ row. record row { status = failed_status; error = some error }) w.documents;
      })
      tt

pub record DocumentRef : Type 0 where
  pub storage_key : List ℕ
  pub source_type : SourceType

abbrev pub ref_if : Option DocumentRow → Option DocumentRef
ref_if none = none
ref_if (some row) = some (record { storage_key = row.storage_key; source_type = row.source_type })

unfoldable pub get_ref : List ℕ → List ℕ → Eff World (Option DocumentRef)
unfolding find_document
get_ref id tenant w = ran w (ref_if (find_document id tenant w))

unfoldable pub set_parse_result : List ℕ → List ℕ → ℕ → List (List ℕ) → Eff World Void
unfolding update_document
set_parse_result id tenant pages warnings =
    update_document id tenant (λ row. record row { page_count = some pages; warnings = warnings })

-- The unique constraint on (tenant, assistant, content_hash).
unfoldable pub same_content : ChunkRow → ChunkRow → Bool
same_content a b =
    equals a.tenant_id b.tenant_id
    && (equals a.assistant_id b.assistant_id && equals a.content_hash b.content_hash)

unfoldable pub has_content : ChunkRow → List ChunkRow → Bool
unfolding same_content
has_content row [] = false
has_content row (r ∷ rows) =
    let rest = has_content row rows in if same_content row r then true else rest

-- `createMany` with `skipDuplicates`, row by row: the rows that were there with the new ones, and
-- how many are new. The batches of 1000 share a transaction, so they are one sequence here.
unfoldable pub insert_new : List ChunkRow → List ChunkRow → List ChunkRow × ℕ
unfolding has_content
insert_new rows [] = (rows, 0)
insert_new rows (row ∷ more) = elim (has_content row rows) [
  | true ↦ insert_new rows more
  | false ↦ let (all, inserted) = insert_new (rows ++ row ∷ []) more in (all, suc inserted)
]

module _ (random_uuid : ℕ → List ℕ) (hash_chunk_content : List ℕ → List ℕ) where
  -- The `data` of `saveChunks`: a fresh identifier for each chunk, no vector.
  unfoldable pub chunk_rows : List ℕ → List ℕ → List ℕ → ℕ → List ChunkDraft → List ChunkRow
  chunk_rows document tenant assistant drawn [] = []
  chunk_rows document tenant assistant drawn (c ∷ cs) =
      record {
        id = random_uuid drawn;
        tenant_id = tenant;
        document_id = document;
        assistant_id = assistant;
        content = c.content;
        token_count = c.token_count;
        page = some c.page;
        section = c.section;
        char_start = c.char_start;
        char_end = c.char_end;
        content_hash = hash_chunk_content c.content;
        vector = none;
      }
      ∷ chunk_rows document tenant assistant (suc drawn) cs

  -- The result is `(inserted, total)`.
  unfoldable pub save_chunks : List ℕ → List ℕ → List ℕ → List ChunkDraft → Eff World (ℕ × ℕ)
  unfolding chunk_rows insert_new
  save_chunks document tenant assistant chunks w =
      let (all, inserted) =
        insert_new w.chunks (chunk_rows document tenant assistant w.drawn chunks) in
      ran (record w { chunks = all; drawn = w.drawn + length chunks }) (inserted, length chunks)

abbrev pub is_assistant : List ℕ → List ℕ → AssistantRow → Bool
is_assistant id tenant row = equals row.id id && equals row.tenant_id tenant

abbrev pub is_unset : Option (List ℕ) → Bool
is_unset none = true
is_unset (some model) = false

-- The check of the second query: no row is accepted.
unfoldable pub model_matches : Option AssistantRow → List ℕ → Bool
model_matches none model = true
model_matches (some row) model = elim row.embedding_model [ none ↦ false | some m ↦ equals m model ]

-- A transaction that throws is rolled back.
abbrev pub claimed_or_throw : Bool → World → World → Ran World Void
claimed_or_throw true w claimed = ran claimed tt
claimed_or_throw false w claimed =
    failed w (codes "ensureEmbeddingModel: corpus already embedded with another model")

unfoldable pub ensure_embedding_model : List ℕ → List ℕ → List ℕ → Eff World Void
unfolding update_rows find_row model_matches
ensure_embedding_model tenant assistant model w =
    let claimed = record w {
      assistants =
          update_rows (λ row. is_assistant assistant tenant row && is_unset row.embedding_model)
            (λ row. record row { embedding_model = some model }) w.assistants;
    } in
    claimed_or_throw
      (model_matches (find_row (is_assistant assistant tenant) claimed.assistants) model) w claimed

abbrev pub has_vector : ChunkRow → Bool
has_vector row = elim row.vector [ none ↦ false | some v ↦ true ]

-- `ORDER BY char_start`
unfoldable pub insert_by_start : ChunkRow → List ChunkRow → List ChunkRow
insert_by_start row [] = row ∷ []
insert_by_start row (r ∷ rows) =
    let rest = insert_by_start row rows in
    if leb row.char_start r.char_start then row ∷ (r ∷ rows) else r ∷ rest

unfoldable pub order_by_start : List ChunkRow → List ChunkRow
unfolding insert_by_start
order_by_start [] = []
order_by_start (row ∷ rows) = insert_by_start row (order_by_start rows)

abbrev pub is_pending : List ℕ → List ℕ → ChunkRow → Bool
is_pending document tenant row =
    equals row.document_id document && (equals row.tenant_id tenant && not (has_vector row))

unfoldable pub get_unembedded_chunks : List ℕ → List ℕ → Eff World (List ChunkRow)
unfolding order_by_start keep
get_unembedded_chunks document tenant w =
    ran w (order_by_start (keep (is_pending document tenant) w.chunks))

-- A pair of the `updates`.
pub record VectorUpdate : Type 0 where
  pub id : List ℕ
  pub vector : List Double

-- The `UPDATE … FROM unnest(…)`, pair by pair; the batch has no identifier twice.
unfoldable pub set_vectors : List ℕ → List VectorUpdate → List ChunkRow → List ChunkRow
unfolding update_rows
set_vectors tenant [] rows = rows
set_vectors tenant (u ∷ us) rows = set_vectors tenant us (
    update_rows (λ row. equals row.id u.id && equals row.tenant_id tenant)
      (λ row. record row { vector = some u.vector }) rows)

unfoldable pub set_chunk_embeddings : List ℕ → List ℕ → List VectorUpdate → Eff World Void
unfolding set_vectors
set_chunk_embeddings tenant document updates w =
    ran (record w { chunks = set_vectors tenant updates w.chunks }) tt
