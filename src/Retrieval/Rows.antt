-- ===== src/Retrieval/Rows.antt =====
-- The rows that a search may give hits of.
use ai_support_agent_builder.Prelude.{
  ℕ, List, [], ◌∷◌, Option, true, false, if_elim, ◌≡◌, refl, ◌&&◌, Bool, none, some, keep,
}
use ai_support_agent_builder.Text.{equals_iff, to_lower_case}
use ai_support_agent_builder.Ingest.World.{same_uuid}
use ai_support_agent_builder.Number.{Double}
use ai_support_agent_builder.Chat.Sources.Header.{ChunkHit}
use ai_support_agent_builder.Retrieval.{Corpus, ChunkRow, is_embedded, is_searched}

-- The hit is the row's, as near as the two vectors are.
pub record IsHitOf (corpus : Corpus) (vector : List Double) (row : ChunkRow) (hit : ChunkHit)
    : Type 0 where
  pub embedding : List Double
  pub embedded : row.embedding ≡ some embedding
  pub score : hit.score ≡ corpus.similarity embedding vector
  pub id : hit.id ≡ row.id
  pub content : hit.content ≡ row.content
  pub document : hit.document_id ≡ row.document_id
  pub title : hit.title ≡ row.title
  pub page : hit.page ≡ row.page
  pub section : hit.section ≡ row.section
  pub char_start : hit.char_start ≡ row.char_start
  pub char_end : hit.char_end ≡ row.char_end

-- A row of the tenant's assistant that has an embedding; uuids are compared without case.
pub record IsOwn (tenant assistant : List ℕ) (row : ChunkRow) : Type 0 where
  pub tenants : to_lower_case row.tenant_id ≡ to_lower_case tenant
  pub assistants : to_lower_case row.assistant_id ≡ to_lower_case assistant
  pub embedding : List Double
  pub embedded : row.embedding ≡ some embedding

-- Each hit is that of an own row, in the order of the rows.
abbrev pub HitsOf : Corpus → List ℕ → List ℕ → List Double → List ChunkRow → List ChunkHit → Type 0
HitsOf corpus tenant assistant vector [] [] = Unit
HitsOf corpus tenant assistant vector [] (hit ∷ hits) = ⊥
HitsOf corpus tenant assistant vector (row ∷ rows) [] = ⊥
HitsOf corpus tenant assistant vector (row ∷ rows) (hit ∷ hits) =
    IsOwn tenant assistant row
    × IsHitOf corpus vector row hit
    × HitsOf corpus tenant assistant vector rows hits

-- The rows are all that the tenant's assistant has with an embedding: a row of the corpus is one
-- of them, or it is not its own.
pub data OwnRows (tenant assistant : List ℕ) : List ChunkRow → List ChunkRow → Type 0 where
  no_rows : OwnRows tenant assistant [] []
  own :
      (row : ChunkRow) (all rows : List ChunkRow)
      → IsOwn tenant assistant row
      → OwnRows tenant assistant all rows
      → OwnRows tenant assistant (row ∷ all) (row ∷ rows)
  other :
      (row : ChunkRow) (all rows : List ChunkRow)
      → ¬ IsOwn tenant assistant row
      → OwnRows tenant assistant all rows
      → OwnRows tenant assistant (row ∷ all) rows

&&-split : (a b : Bool) → (a && b) ≡ true → (a ≡ true) × (b ≡ true)
&&-split true b h = (refl, h)
&&-split false b h = cc

is_embedded-some :
    (o : Option (List Double)) → is_embedded o ≡ true → (v : List Double) × (o ≡ some v)
is_embedded-some none h = cc
is_embedded-some (some v) h = (v, refl)

pub is_searched-IsOwn :
    (tenant assistant : List ℕ) (row : ChunkRow)
    → is_searched tenant assistant row ≡ true
    → IsOwn tenant assistant row
unfolding is_searched
is_searched-IsOwn tenant assistant row h =
    let (t, more) = &&-split (same_uuid row.tenant_id tenant) _ h in
    let (a, e) = &&-split (same_uuid row.assistant_id assistant) _ more in
    let (v, some_v) = is_embedded-some row.embedding e in
    record {
      tenants = (equals_iff _ _).0 t;
      assistants = (equals_iff _ _).0 a;
      embedding = v;
      embedded = some_v;
    }

IsOwn-is_searched :
    (tenant assistant : List ℕ) (row : ChunkRow)
    → IsOwn tenant assistant row
    → is_searched tenant assistant row ≡ true
unfolding is_searched
IsOwn-is_searched tenant assistant row h =
    rw ((equals_iff _ _).1 h.tenants, (equals_iff _ _).1 h.assistants, h.embedded) refl

pub keep-OwnRows :
    (tenant assistant : List ℕ) (rows : List ChunkRow)
    → OwnRows tenant assistant rows (keep (is_searched tenant assistant) rows)
unfolding keep
keep-OwnRows tenant assistant [] = no_rows
keep-OwnRows tenant assistant (row ∷ rows) =
    if_elim (OwnRows tenant assistant (row ∷ rows)) (is_searched tenant assistant row) _ _
      (λ e.
        own row rows _ (is_searched-IsOwn tenant assistant row e)
          (keep-OwnRows tenant assistant rows))
      (λ e.
        other row rows _ (λ h. let f = IsOwn-is_searched tenant assistant row h in absurd (cc))
          (keep-OwnRows tenant assistant rows))
