-- ===== src/Tests/Jobs.antt =====
-- The ingestion jobs, the retries and the rate limit.
use ai_support_agent_builder.Prelude.{
  ℕ, ◌+◌, ◌-◌, ◌*◌, ◌≤◌, [], ◌∷◌, ◌≡◌, refl, none, some, true, false, arith, leb, if◌then◌else◌,
}
use ai_support_agent_builder.Text.{codes, equals, to_lower_case}
use ai_support_agent_builder.Effects.{Void, ran, state_of}
use ai_support_agent_builder.Parsing.Types.{txt}
use ai_support_agent_builder.Retry.{value, throws, Task, with_retry}
use ai_support_agent_builder.Retry.Ends.{Ends, with_retry-Ends}
use ai_support_agent_builder.RateLimit.{Limits, token, full, lifetime, stored, count_allowed}
use ai_support_agent_builder.RateLimit.Window.{count_allowed-le}
use ai_support_agent_builder.Ingest.World.{
  World, DocumentRow, DocumentStatus, uploaded, embedding, ready, IngestJobData, find_document,
}
use ai_support_agent_builder.Number.{Double, finite, pos}
use ai_support_agent_builder.Parsing.Assemble.Anchors.{All}
use ai_support_agent_builder.Ingest.Store.{is_pending}
use ai_support_agent_builder.Ingest.World.{ChunkRow}
use ai_support_agent_builder.Ingest.Pipeline.Vectors.{embed_stage-All}
use ai_support_agent_builder.Ingest.Pipeline.{embed_stage}
use ai_support_agent_builder.Prelude.{map, zero, suc, List, Option}
use ai_support_agent_builder.Ingest.Pipeline.{IngestDeps, default_stages, run_ingestion, on_failed}
use ai_support_agent_builder.Ingest.Pipeline.Resume.{
  status_of, left_to_do, run_ingestion-left_to_do,
}
use ai_support_agent_builder.Ingest.Pipeline.Status.{
  map_some, after_failure, on_failed-after_failure,
}
use ai_support_agent_builder.Tests.Data.{unit_encoder, readers}

-- Two failures, then a value.
abbrev flaky : Task (Void) ℕ
flaky = record {
  fn = λ n. if leb n 2 then throws tt else value 7;
  attempts = 4;
  base_delay_ms = 500;
  should_retry = λ e. true;
}

with_retry-Ends_example : (n : ℕ) × Ends flaky 1 n (with_retry flaky)
with_retry-Ends_example = with_retry-Ends flaky (omega arith)

abbrev limits : Limits
limits = record { capacity = 2; refill_num = 1; refill_den = 2 }

written : (stored limits 0 10).expires_at ≡ (stored limits 0 10).ts + lifetime limits
unfolding stored
written = refl

count_allowed-le_example :
    count_allowed limits none (5 ∷ 6 ∷ 7 ∷ []) * token limits
    ≤ full limits + (9 - 5) * limits.refill_num
count_allowed-le_example =
    count_allowed-le limits (omega arith) none 5 (5 ∷ 6 ∷ 7 ∷ []) 9
      (omega arith, (omega arith, (omega arith, omega arith)))

abbrev deps : IngestDeps
deps = record {
  readers = readers;
  encoder = unit_encoder;
  random_uuid = λ n. n ∷ [];
  hash_chunk_content = λ s. s;
  embedder = record { dimensions = 1536; model = codes "m"; embed = λ texts attempt. value [] };
}

abbrev job : IngestJobData
job = record { document_id = codes "d"; tenant_id = codes "t"; assistant_id = codes "a" }

abbrev row : DocumentStatus → DocumentRow
row status = record {
  id = codes "d";
  tenant_id = codes "t";
  assistant_id = codes "a";
  title = codes "T";
  source_type = txt;
  storage_key = codes "k";
  status = status;
  page_count = none;
  warnings = [];
  error = none;
}

abbrev world : DocumentStatus → World
world status = record {
  documents = row status ∷ [];
  chunks = [];
  assistants = [];
  objects = [];
  drawn = 0;
}

run_ingestion-left_to_do_example :
    run_ingestion (default_stages deps) job (world uploaded)
    ≡ left_to_do deps job (status_of job (world uploaded)) (world uploaded)
run_ingestion-left_to_do_example = run_ingestion-left_to_do deps job (world uploaded)

-- All chunks have their vectors, so the embed stage has nothing to do.
embeds : run_ingestion (default_stages deps) job (world embedding) ≡ ran (world ready) tt
unfolding run_ingestion default_stages equals to_lower_case
embeds = refl

on_failed-after_failure_example :
    find_document job.document_id job.tenant_id
      (state_of (on_failed job 3 3 (codes "boom") (world embedding)))
    ≡ map_some
        (after_failure job (leb 3 3) (codes "boom"))
        (find_document job.document_id job.tenant_id (world embedding))
on_failed-after_failure_example = on_failed-after_failure job 3 3 (codes "boom") (world embedding)

abbrev ones : ℕ → List Double
ones zero = []
ones (suc n) = finite (pos 1) ∷ ones n

abbrev embedding_deps : IngestDeps
embedding_deps = record {
  readers = readers;
  encoder = unit_encoder;
  random_uuid = λ n. n ∷ [];
  hash_chunk_content = λ s. s;
  embedder = record {
    dimensions = 1536;
    model = codes "m";
    embed = λ texts attempt. value (map (λ t. ones 1536) texts);
  };
}

abbrev chunk : Option (List Double) → ChunkRow
chunk vector = record {
  id = codes "c";
  tenant_id = codes "t";
  document_id = codes "d";
  assistant_id = codes "a";
  content = codes "x";
  token_count = 1;
  page = some 1;
  section = none;
  char_start = 0;
  char_end = 1;
  content_hash = codes "x";
  vector = vector;
}

abbrev chunk_world : Option (List Double) → World
chunk_world vector = record {
  documents = [];
  chunks = chunk vector ∷ [];
  assistants = [];
  objects = [];
  drawn = 0;
}

chunk_embeds :
    embed_stage embedding_deps job (chunk_world none) ≡ ran (chunk_world (some (ones 1536))) tt
unfolding embed_stage equals
chunk_embeds = refl

embed_stage-All_example :
    All
      (λ row. is_pending job.document_id job.tenant_id row ≡ false)
      (chunk_world (some (ones 1536))).chunks
embed_stage-All_example =
    embed_stage-All embedding_deps job (chunk_world none) (chunk_world (some (ones 1536))) tt
      chunk_embeds
