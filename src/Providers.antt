-- ===== src/Providers.antt =====
-- api/src/providers: the embedder over the embeddings service of OpenAI, and the reranker that keeps
-- the order.
pub mod Batches
use ai_support_agent_builder.Prelude.{
  ℕ, zero, suc, ◌-◌, min, List, [], ◌∷◌, ◌++◌, map, take, drop, length, Option, none, some, Bool,
  true, false, if◌then◌else◌, leb,
}
use ai_support_agent_builder.Text.{codes}
use ai_support_agent_builder.Number.{Double}
use ai_support_agent_builder.Retry.{Call, value, throws}
use ai_support_agent_builder.Ingest.Pipeline.{Embedder, EmbedError, embedding_dimensions}

-- An entry of the service's answer.
pub record Embedding : Type 0 where
  pub index : ℕ
  pub vector : List Double

pub record CreateArgs : Type 0 where
  pub model : List ℕ
  pub input : List (List ℕ)
  pub dimensions : ℕ

-- `embeddings.create`, at the attempt's time.
abbrev pub EmbeddingsClient : Type 0
EmbeddingsClient = CreateArgs → ℕ → Call EmbedError (List Embedding)

abbrev pub default_batch_size : ℕ
default_batch_size = 96

-- `[...data].sort((a, b) => a.index - b.index)`, which is stable.
unfoldable pub insert_embedding : Embedding → List Embedding → List Embedding
insert_embedding e [] = e ∷ []
insert_embedding e (f ∷ fs) =
    let later = f ∷ insert_embedding e fs in if leb e.index f.index then e ∷ f ∷ fs else later

unfoldable pub sort_embeddings : List Embedding → List Embedding
unfolding insert_embedding
sort_embeddings [] = []
sort_embeddings (e ∷ es) = insert_embedding e (sort_embeddings es)

abbrev pub ordered_vectors : List Embedding → List (List Double)
ordered_vectors es = map (λ e. e.vector) (sort_embeddings es)

abbrev pub append_to : {A : Type 0} → List A → Call EmbedError (List A) → Call EmbedError (List A)
append_to vectors (throws e) = throws e
append_to vectors (value more) = value (vectors ++ more)

-- Behind the answer for one batch; the other argument is what the other batches give.
abbrev pub with_answer :
    Call EmbedError (List Embedding)
    → Call EmbedError (List (List Double))
    → Call EmbedError (List (List Double))
with_answer (throws e) more = throws e
with_answer (value es) more = append_to (ordered_vectors es) more

module _ (client : EmbeddingsClient) (model : List ℕ) (dimensions batch_size : ℕ) where
  abbrev pub create_args : List (List ℕ) → CreateArgs
  create_args batch = record { model = model; input = batch; dimensions = dimensions }

  -- The loop over the batches, with the rounds that are left; a round takes a text at least.
  unfoldable pub embed_from : ℕ → List (List ℕ) → ℕ → Call EmbedError (List (List Double))
  unfolding sort_embeddings
  embed_from zero texts attempt = value []
  embed_from (suc rounds) [] attempt = value []
  embed_from (suc rounds) (text ∷ texts) attempt =
      with_answer (client (create_args (take batch_size (text ∷ texts))) attempt)
        (embed_from rounds (drop batch_size (text ∷ texts)) attempt)

  -- `embed`
  unfoldable pub embed : List (List ℕ) → ℕ → Call EmbedError (List (List Double))
  unfolding embed_from
  embed texts attempt = embed_from (length texts) texts attempt

  -- The provider as the interface of the shared package.
  unfoldable pub openai_embedder : Embedder
  unfolding embed
  openai_embedder = record { dimensions = dimensions; model = model; embed = embed }

-- A result of a reranker; the score is the fraction of the two numbers.
pub record RerankResult : Type 0 where
  pub index : ℕ
  pub score_of : ℕ
  pub score_over : ℕ

abbrev pub rerank_limit : Option ℕ → ℕ → ℕ
rerank_limit none n = n
rerank_limit (some top_k) n = min top_k n

unfoldable pub rerank_from : ℕ → ℕ → ℕ → List RerankResult
rerank_from zero index n = []
rerank_from (suc left) index n =
    record { index = index; score_of = n - index; score_over = n } ∷ rerank_from left (suc index) n

-- `IdentityReranker.rerank`: `1 - index / n` is (n - index) / n.
unfoldable pub rerank : List ℕ → List (List ℕ) → Option ℕ → List RerankResult
unfolding rerank_from
rerank query documents top_k =
    rerank_from (rerank_limit top_k (length documents)) 0 (length documents)
