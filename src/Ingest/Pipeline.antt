-- ===== src/Ingest/Pipeline.antt =====
-- api/src/worker/pipeline.ts, and the `failed` handler of api/src/worker/ingest-worker.ts.
pub mod Resume
pub mod Status
pub mod Vectors
use ai_support_agent_builder.Prelude.{
  ℕ, zero, suc, ◌+◌, List, [], ◌∷◌, map, Option, none, some, Bool, true, false, ◌&&◌, not,
  if◌then◌else◌, leb, ltb, ◌==◌, length, take, drop,
}
use ai_support_agent_builder.Text.{codes, equals, is_blank_text}
use ai_support_agent_builder.Number.{Double, is_finite}
use ai_support_agent_builder.Effects.{
  Eff, Void, ran, failed, Message, ◌>>=◌, ◌>>◌, after, pure, throw,
}
use ai_support_agent_builder.Retry.{
  Call, Task, Outcome, returns, rejects, with_retry, is_retryable_embed_error,
}
use ai_support_agent_builder.Parsing.Types.{
  ParsedDocument, Parsed, returned, thrown, parse_error, foreign_error, Thrown,
}
use ai_support_agent_builder.Parsing.Pdf.{Readers}
use ai_support_agent_builder.Parsing.Document.{parse_document}
use ai_support_agent_builder.Chunking.Tokenizer.{Encoder}
use ai_support_agent_builder.Chunking.Chunker.{ChunkDraft, chunk_document, default_chunk_options}
use ai_support_agent_builder.Ingest.World.{
  World, DocumentStatus, queued, uploaded, parsing, embedding, ready, failed_status, IngestJobData,
  StoredObject, ChunkRow, find_row,
}
use ai_support_agent_builder.Ingest.Store.{
  get_status, set_status, mark_failed, get_ref, DocumentRef, set_parse_result, save_chunks,
  ensure_embedding_model, get_unembedded_chunks, set_chunk_embeddings, VectorUpdate,
}

-- An error of the embedding service: its message and its `status`.
pub record EmbedError : Type 0 where
  pub message : Message
  pub status : Option ℕ

-- The `Embedder` interface (packages/shared/src/providers.ts); the number is that of the attempt.
pub record Embedder : Type 0 where
  pub dimensions : ℕ
  pub model : List ℕ
  pub embed : List (List ℕ) → ℕ → Call EmbedError (List (List Double))

pub record IngestDeps : Type 0 where
  pub readers : Readers
  pub encoder : Encoder
  pub random_uuid : ℕ → List ℕ
  pub hash_chunk_content : List ℕ → List ℕ
  pub embedder : Embedder

abbrev pub embedding_dimensions : ℕ
embedding_dimensions = 1536

abbrev pub embed_batch_size : ℕ
embed_batch_size = 128

-- `rank`: the place in the order of the life cycle, 0 for what is not in it.
unfoldable pub rank : DocumentStatus → ℕ
rank uploaded = 0
rank parsing = 1
rank embedding = 2
rank ready = 3
rank queued = 0
rank failed_status = 0

-- `storage.get`
unfoldable pub get_object : List ℕ → Eff World (List ℕ)
unfolding find_row
get_object key w = elim (find_row (λ o. equals o.key key) w.objects) [
  | none ↦ failed w (codes "object not found")
  | some o ↦ ran w o.body
]

abbrev pub message_of : Thrown → Message
message_of (parse_error m) = m
message_of (foreign_error m) = m

-- A value of the parsers, awaited.
abbrev pub awaited {ℓ} : {A : Type ℓ} → Parsed A → Eff World A
awaited (returned a) w = ran w a
awaited (thrown e) w = failed w (message_of e)

-- `if (test) throw new Error(message)`
abbrev pub throw_if : Bool → Message → Eff World Void
throw_if true message w = failed w message
throw_if false message w = ran w tt

abbrev pub required : Option DocumentRef → Eff World DocumentRef
required none w = failed w (codes "document not found")
required (some ref) w = ran w ref

module _ (deps : IngestDeps) where
  -- The run of the parse stage.
  unfoldable pub parse_stage : IngestJobData → Eff World Void
  unfolding get_ref get_object parse_document set_parse_result chunk_document save_chunks
  parse_stage job = do
    found ← get_ref job.document_id job.tenant_id
    ref ← required found
    bytes ← get_object ref.storage_key
    parsed ← awaited (parse_document deps.readers ref.source_type bytes)
    throw_if (is_blank_text parsed.text)
        (codes "no extractable text — document may be scanned or image-only")
    set_parse_result job.document_id job.tenant_id parsed.page_count parsed.warnings
    let chunks = chunk_document deps.encoder default_chunk_options parsed
    throw_if (length chunks == 0) (codes "no chunkable content in document")
    save_chunks deps.random_uuid deps.hash_chunk_content job.document_id job.tenant_id
        job.assistant_id chunks
    pure tt

-- The updates of a batch, or the message of the first vector that is refused.
pub data Checked : Type 0 where
  accepted : List VectorUpdate → Checked
  refused : Message → Checked

unfoldable pub all_finite : List Double → Bool
unfolding is_finite
all_finite [] = true
all_finite (v ∷ vs) = is_finite v && all_finite vs

abbrev pub with_update : VectorUpdate → Checked → Checked
with_update u (accepted us) = accepted (u ∷ us)
with_update u (refused m) = refused m

-- `batch.map((chunk, j) => …)`; the lengths are equal here.
unfoldable pub check_vectors : List ChunkRow → List (List Double) → Checked
unfolding all_finite
check_vectors [] vectors = accepted []
check_vectors (chunk ∷ chunks) [] = accepted []
check_vectors (chunk ∷ chunks) (vector ∷ vectors) =
    let rest = check_vectors chunks vectors in
    if not (length vector == embedding_dimensions)
    then refused (codes "embedding has the wrong dimensions")
    else if not (all_finite vector)
    then refused (codes "embedding contains a non-finite value")
    else with_update (record { id = chunk.id; vector = vector }) rest

abbrev pub accepted_or_throw : Checked → Eff World (List VectorUpdate)
accepted_or_throw (accepted us) w = ran w us
accepted_or_throw (refused m) w = failed w m

abbrev pub error_message : Option EmbedError → Message
error_message none = codes "undefined"
error_message (some e) = e.message

abbrev pub outcome_or_throw :
    Outcome EmbedError (List (List Double)) → Eff World (List (List Double))
outcome_or_throw (returns vectors) w = ran w vectors
outcome_or_throw (rejects e) w = failed w (error_message e)

module _ (deps : IngestDeps) where
  -- `withRetry(() => embedder.embed(batch…), { attempts: 4, baseDelayMs: 500, … })`
  abbrev pub embed_task : List ChunkRow → Task EmbedError (List (List Double))
  embed_task batch = record {
    fn = deps.embedder.embed (map (λ c. c.content) batch);
    attempts = 4;
    base_delay_ms = 500;
    should_retry = λ e. is_retryable_embed_error e.status;
  }

  -- One round of the loop.
  unfoldable pub embed_batch : IngestJobData → List ChunkRow → Eff World Void
  unfolding with_retry is_retryable_embed_error check_vectors set_chunk_embeddings
  embed_batch job batch = do
    vectors ← outcome_or_throw (with_retry (embed_task batch)).outcome
    throw_if (not (length vectors == length batch))
        (codes "embedder returned the wrong number of vectors")
    updates ← accepted_or_throw (check_vectors batch vectors)
    set_chunk_embeddings job.tenant_id job.document_id updates

  -- The loop, with the rounds that are left; a round takes a chunk at least.
  unfoldable pub embed_batches : ℕ → IngestJobData → List ChunkRow → Eff World Void
  unfolding embed_batch
  embed_batches zero job pending = pure tt
  embed_batches (suc rounds) job [] = pure tt
  embed_batches (suc rounds) job (chunk ∷ chunks) = do
    embed_batch job (take embed_batch_size (chunk ∷ chunks))
    embed_batches rounds job (drop embed_batch_size (chunk ∷ chunks))

  abbrev pub embed_pending : IngestJobData → List ChunkRow → Eff World Void
  embed_pending job [] = pure tt
  embed_pending job (chunk ∷ chunks) = do
    ensure_embedding_model job.tenant_id job.assistant_id deps.embedder.model
    embed_batches (length (chunk ∷ chunks)) job (chunk ∷ chunks)

  -- The run of the embed stage.
  unfoldable pub embed_stage : IngestJobData → Eff World Void
  unfolding get_unembedded_chunks ensure_embedding_model embed_batches
  embed_stage job = do
    throw_if (not (deps.embedder.dimensions == embedding_dimensions))
        (codes "embedder dimensions != column width")
    pending ← get_unembedded_chunks job.document_id job.tenant_id
    embed_pending job pending

pub record IngestStage : Type 0 where
  pub name : List ℕ
  pub start_status : DocumentStatus
  pub run : IngestJobData → Eff World Void

unfoldable pub default_stages : IngestDeps → List IngestStage
unfolding parse_stage embed_stage
default_stages deps =
    record { name = codes "parse"; start_status = parsing; run = parse_stage deps }
    ∷ record { name = codes "embed"; start_status = embedding; run = embed_stage deps }
    ∷ []

-- The status that says a stage is finished: the next stage's start, or READY.
abbrev pub done_status : List IngestStage → DocumentStatus
done_status [] = ready
done_status (stage ∷ stages) = stage.start_status

-- `if (curRank < rank(stage.startStatus)) setStatus(…)`
unfoldable pub enter_stage : IngestJobData → IngestStage → ℕ → Eff World Void
unfolding rank set_status
enter_stage job stage cur_rank w =
    if ltb cur_rank (rank stage.start_status)
    then set_status job.document_id job.tenant_id stage.start_status w
    else ran w tt

-- The loop over the stages; it ends with the rank that is reached.
unfoldable pub run_stages : IngestJobData → List IngestStage → ℕ → Eff World ℕ
unfolding rank enter_stage set_status
run_stages job [] cur_rank w = ran w cur_rank
run_stages job (stage ∷ stages) cur_rank w = elim (leb (rank (done_status stages)) cur_rank) [
  | true ↦ run_stages job stages cur_rank w
  | false ↦ after (enter_stage job stage cur_rank w) λ a. stage.run job >>= λ b.
      set_status job.document_id job.tenant_id (done_status stages) >>= λ c.
      run_stages job stages (rank (done_status stages))
]

-- `if (curRank < rank('READY')) setStatus('READY')`
abbrev pub finish : IngestJobData → ℕ → Eff World Void
finish job cur_rank w =
    if ltb cur_rank (rank ready) then set_status job.document_id job.tenant_id ready w else ran w tt

abbrev pub from_status : IngestJobData → List IngestStage → Option DocumentStatus → Eff World Void
from_status job stages none w = failed w (codes "document not found")
from_status job stages (some current) w =
    after (run_stages job stages (rank current) w) (finish job)

unfoldable pub run_ingestion : List IngestStage → IngestJobData → Eff World Void
unfolding get_status run_stages rank set_status
run_ingestion stages job = do
  current ← get_status job.document_id job.tenant_id
  from_status job stages current

abbrev pub max_error_length : ℕ
max_error_length = 2000

-- The `failed` event of a job: after the last attempt the document is FAILED.
unfoldable pub on_failed : IngestJobData → ℕ → ℕ → Message → Eff World Void
unfolding mark_failed
on_failed job attempts attempts_made error w =
    if leb attempts attempts_made
    then mark_failed job.document_id job.tenant_id (take max_error_length error) w
    else ran w tt
