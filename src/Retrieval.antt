-- ===== src/Retrieval.antt =====
-- api/src/retrieval: the checks in front of the vector search, and the embedding of a question.
pub mod Checks
pub mod Nearest
pub mod Rows
pub mod Vectors
use ai_support_agent_builder.Prelude.{
  ℕ, List, [], ◌∷◌, Option, none, some, Bool, true, false, ◌&&◌, ◌||◌, not, if◌then◌else◌, ◌≡◌,
  length, map, take, keep, ltb, min, max, ◌/◌, ◌==◌,
}
use ai_support_agent_builder.Text.{equals, trim, is_empty}
use ai_support_agent_builder.Number.{
  unit, whole, is_finite, Double, finite, pos, nan, minus_infinity, plus_infinity, negsuc,
}
use ai_support_agent_builder.Retry.{
  Task, Outcome, returns, rejects, with_retry, is_retryable_embed_error,
}
use ai_support_agent_builder.Storage.ObjectKey.{is_uuid}
use ai_support_agent_builder.Chat.Sources.Header.{ChunkHit}
use ai_support_agent_builder.Ingest.World.{same_uuid}
use ai_support_agent_builder.Ingest.Pipeline.{
  Embedder, EmbedError, embedding_dimensions, all_finite,
}

-- What is thrown, one constructor for each message.
pub data RetrievalError : Type 0 where
  bad_assistant wrong_dimensions not_finite all_zeros k_not_finite model_mismatch : RetrievalError
  no_question too_long no_vector : RetrievalError
  embedding_failed : Option EmbedError → RetrievalError

pub data Retrieved {ℓ} (A : Type ℓ) : Type ℓ where
  found : A → Retrieved A
  raised : RetrievalError → Retrieved A

pub record RetrieveParams : Type 0 where
  pub assistant_id : List ℕ
  pub query_embedding : List Double
  pub embedding_model : List ℕ
  pub k : Double

abbrev pub max_k : ℕ
max_k = 100

-- `v !== 0`
abbrev pub is_zero : Double → Bool
is_zero (finite (pos n)) = n == 0
is_zero (finite (negsuc n)) = false
is_zero nan = false
is_zero minus_infinity = false
is_zero plus_infinity = false

unfoldable pub some_nonzero : List Double → Bool
some_nonzero [] = false
some_nonzero (v ∷ vs) = not (is_zero v) || some_nonzero vs

-- `Math.min(Math.max(Math.floor(k), 1), MAX_K)` of a number that has passed the check.
unfoldable pub clamp_k : Double → ℕ
unfolding unit
clamp_k (finite (pos n)) = min (max (n / unit) 1) max_k
clamp_k (finite (negsuc n)) = 1
clamp_k nan = 1
clamp_k minus_infinity = 1
clamp_k plus_infinity = max_k

-- The model of the corpus differs: an assistant that is missing, without a model, or with an empty
-- one passes.
unfoldable pub mismatches : Option (List ℕ) → List ℕ → Bool
mismatches none model = false
mismatches (some m) model = not (is_empty m) && not (equals m model)

-- A row of `chunk` joined to its document.
pub record ChunkRow : Type 0 where
  pub tenant_id : List ℕ
  pub assistant_id : List ℕ
  pub embedding : Option (List Double)
  pub id : List ℕ
  pub content : List ℕ
  pub document_id : List ℕ
  pub title : List ℕ
  pub page : Option ℕ
  pub section : Option (List ℕ)
  pub char_start : Option ℕ
  pub char_end : Option ℕ

-- The environment: the embedding model of the assistant that the tenant sees, the joined rows, and
-- what the database's vector extension does: the order of rows by their distance from a vector, and
-- one less the distance of two vectors.
pub record Corpus : Type 0 where
  pub embedding_model : List ℕ → List ℕ → Option (List ℕ)
  pub rows : List ChunkRow
  pub by_distance : List Double → List ChunkRow → List ChunkRow
  pub similarity : List Double → List Double → Double

abbrev pub is_embedded : Option (List Double) → Bool
is_embedded none = false
is_embedded (some v) = true

-- The query's `WHERE`.
unfoldable pub is_searched : List ℕ → List ℕ → ChunkRow → Bool
unfolding equals
is_searched tenant assistant row =
    same_uuid row.tenant_id tenant
    && (same_uuid row.assistant_id assistant && is_embedded row.embedding)

-- The score of a row without an embedding is not computed: the `WHERE` has left it out.
abbrev pub score_of : Corpus → List Double → Option (List Double) → Double
score_of corpus vector none = nan
score_of corpus vector (some v) = corpus.similarity v vector

-- The query's `SELECT`.
abbrev pub hit_of_row : Corpus → List Double → ChunkRow → ChunkHit
hit_of_row corpus vector row = record {
  id = row.id;
  content = row.content;
  document_id = row.document_id;
  title = row.title;
  page = row.page;
  section = row.section;
  char_start = row.char_start;
  char_end = row.char_end;
  score = score_of corpus vector row.embedding;
}

-- The query: `WHERE`, `ORDER BY`, `LIMIT`, `SELECT`.
unfoldable pub nearest : Corpus → List ℕ → List ℕ → List Double → ℕ → List ChunkHit
unfolding is_searched keep
nearest corpus tenant assistant vector k =
    map (hit_of_row corpus vector)
      (take k (corpus.by_distance vector (keep (is_searched tenant assistant) corpus.rows)))

abbrev pub default_retrieval_k : ℕ
default_retrieval_k = 8

abbrev pub max_question_length : ℕ
max_question_length = 4000

abbrev pub k_or_default : Option Double → Double
k_or_default none = whole default_retrieval_k
k_or_default (some k) = k

abbrev pub question_task : Embedder → List ℕ → Task EmbedError (List (List Double))
question_task embedder question = record {
  fn = embedder.embed (question ∷ []);
  attempts = 3;
  base_delay_ms = 200;
  should_retry = λ e. is_retryable_embed_error e.status;
}

module _ (corpus : Corpus) where
  unfoldable pub retrieve_chunks : List ℕ → RetrieveParams → Retrieved (List ChunkHit)
  unfolding is_uuid is_finite all_finite some_nonzero clamp_k mismatches nearest
  retrieve_chunks tenant p =
      if not (is_uuid p.assistant_id)
      then raised bad_assistant
      else if not (length p.query_embedding == embedding_dimensions)
      then raised wrong_dimensions
      else if not (all_finite p.query_embedding)
      then raised not_finite
      else if not (some_nonzero p.query_embedding)
      then raised all_zeros
      else if not (is_finite p.k)
      then raised k_not_finite
      else if mismatches (corpus.embedding_model tenant p.assistant_id) p.embedding_model
      then raised model_mismatch
      else found (nearest corpus tenant p.assistant_id p.query_embedding (clamp_k p.k))

  abbrev pub first_vector :
      Embedder
      → List ℕ
      → List ℕ
      → Option Double
      → Outcome EmbedError (List (List Double))
      → Retrieved (List ChunkHit)
  first_vector embedder tenant assistant k (rejects e) = raised (embedding_failed e)
  first_vector embedder tenant assistant k (returns []) = raised no_vector
  first_vector embedder tenant assistant k (returns (v ∷ vs)) = retrieve_chunks tenant (record {
    assistant_id = assistant;
    query_embedding = v;
    embedding_model = embedder.model;
    k = k_or_default k;
  })

  -- `retrieve` of the service.
  unfoldable pub retrieve :
      Embedder → List ℕ → List ℕ → List ℕ → Option Double → Retrieved (List ChunkHit)
  unfolding retrieve_chunks with_retry is_retryable_embed_error
  retrieve embedder tenant assistant text k =
      let question = trim text in
      if is_empty question
      then raised no_question
      else if ltb max_question_length (length question)
      then raised too_long
      else first_vector embedder tenant assistant k
          (with_retry (question_task embedder question)).outcome
