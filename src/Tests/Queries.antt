-- ===== src/Tests/Queries.antt =====
-- The retrieval of chunks for a question.
use ai_support_agent_builder.Prelude.{Option, ℕ, zero, suc, List, [], ◌∷◌, ◌≡◌, refl, some, none}
use ai_support_agent_builder.Text.{to_lower_case, codes, equals, trim}
use ai_support_agent_builder.Number.{Double, finite, pos, whole}
use ai_support_agent_builder.Retry.{value}
use ai_support_agent_builder.Ingest.Pipeline.{Embedder}
use ai_support_agent_builder.Retrieval.{Corpus, ChunkRow, hit_of_row, found, retrieve}

abbrev ones : ℕ → List Double
ones zero = []
ones (suc n) = finite (pos 1) ∷ ones n

abbrev embedder : Embedder
embedder = record {
  dimensions = 1536;
  model = codes "m";
  embed = λ texts attempt. value (ones 1536 ∷ []);
}

abbrev assistant : List ℕ
assistant = codes "00000000-0000-0000-0000-00000000000a"

abbrev row_of : List ℕ → List ℕ → Option (List Double) → ChunkRow
row_of tenant id embedding = record {
  tenant_id = tenant;
  assistant_id = assistant;
  embedding = embedding;
  id = id;
  content = codes "abc";
  document_id = codes "d";
  title = codes "T";
  page = none;
  section = none;
  char_start = none;
  char_end = none;
}

-- Rows of two tenants, and one that is not embedded yet.
abbrev corpus : Corpus
corpus = record {
  embedding_model = λ tenant assistant. some (codes "m");
  rows =
      row_of (codes "u") (codes "x") (some (ones 1))
      ∷ row_of (codes "t") (codes "y") none
      ∷ row_of (codes "t") (codes "z") (some (ones 1))
      ∷ [];
  by_distance = λ vector rows. rows;
  similarity = λ v w. finite (pos 1);
}

-- The assistant's id in capitals finds the row all the same.
own_row_found :
    retrieve corpus embedder
      (codes "t")
      (codes "00000000-0000-0000-0000-00000000000A")
      (codes " q ")
      none
    ≡ found (hit_of_row corpus (ones 1536) (row_of (codes "t") (codes "z") (some (ones 1))) ∷ [])
unfolding retrieve trim equals whole to_lower_case
own_row_found = refl
