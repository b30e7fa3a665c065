-- ===== src/Retrieval/Checks.antt =====
-- When a retrieval gives hits, and which.
use ai_support_agent_builder.Prelude.{◌≢◌, ℕ, List, [], ◌∷◌, Option, true, ◌≡◌, length, ◌≤◌}
use ai_support_agent_builder.Text.{trim}
use ai_support_agent_builder.Number.{Double}
use ai_support_agent_builder.Retry.{returns, with_retry}
use ai_support_agent_builder.Storage.ObjectKey.{is_uuid}
use ai_support_agent_builder.Chat.Sources.Header.{ChunkHit}
use ai_support_agent_builder.Ingest.Pipeline.{Embedder}
use ai_support_agent_builder.Retrieval.{
  Retrieved, found, raised, RetrieveParams, Corpus, question_task, k_or_default,
}
use ai_support_agent_builder.Retrieval.Vectors.{IsFinite, AreFinite, AreZero, HasOther}
use ai_support_agent_builder.Retrieval.Nearest.{Nearest}

-- What lets a search be made.
pub record Searchable (corpus : Corpus) (tenant : List ℕ) (p : RetrieveParams) : Type 0 where
  pub assistant : is_uuid p.assistant_id ≡ true
  pub dimensions : length p.query_embedding ≡ 1536
  pub numbers : AreFinite p.query_embedding
  pub direction : ¬ AreZero p.query_embedding
  pub limit : IsFinite p.k
  pub models : ¬ HasOther (corpus.embedding_model tenant p.assistant_id) p.embedding_model

-- A search throws exactly where it cannot be made, and gives the nearest own rows else.
abbrev Searched : Corpus → List ℕ → RetrieveParams → Retrieved (List ChunkHit) → Type 0
Searched corpus tenant p (raised e) = ¬ Searchable corpus tenant p
Searched corpus tenant p (found hits) =
    Searchable corpus tenant p × Nearest corpus tenant p.assistant_id p.query_embedding p.k hits

abbrev pub search_params : Embedder → List ℕ → Option Double → List Double → RetrieveParams
search_params embedder assistant k vector = record {
  assistant_id = assistant;
  query_embedding = vector;
  embedding_model = embedder.model;
  k = k_or_default k;
}

-- What lets a question be searched for: a text of 1 to 4000 characters, a first vector in the
-- embedder's answer, and a search for it that can be made.
pub record Askable (corpus : Corpus) (embedder : Embedder) (tenant assistant question : List ℕ)
    (k : Option Double) (vector : List Double) : Type 0 where
  pub text : trim question ≢ []
  pub bound : length (trim question) ≤ 4000
  pub more : List (List Double)
  pub answered :
      (with_retry (question_task embedder (trim question))).outcome ≡ returns (vector ∷ more)
  pub searchable : Searchable corpus tenant (search_params embedder assistant k vector)

-- A retrieval throws exactly where the question cannot be searched for, and gives the nearest own
-- rows else.
abbrev pub Answers :
    Corpus
    → Embedder
    → List ℕ
    → List ℕ
    → List ℕ
    → Option Double
    → Retrieved (List ChunkHit)
    → Type 0
Answers corpus embedder tenant assistant question k (raised e) =
    (vector : List Double) → ¬ Askable corpus embedder tenant assistant question k vector
Answers corpus embedder tenant assistant question k (found hits) =
    (vector : List Double) × Askable corpus embedder tenant assistant question k vector
    × Nearest corpus tenant assistant vector (k_or_default k) hits
