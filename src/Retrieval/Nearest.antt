-- ===== src/Retrieval/Nearest.antt =====
-- The nearest of the own rows, under the limit.
use native.Mathlib.Nat.{mul-div_cancel, one-le-pow}
use ai_support_agent_builder.Prelude.{
  max, ◌<◌, ℕ, List, [], ◌∷◌, true, not, ◌≡◌, refl, sym, length, length-take, Bool-cases, ap, ◌∙◌,
  suc, zero, inl, inr, ◌≤◌, Bool, map, take, keep, min, arith,
}
use ai_support_agent_builder.Number.{
  unit, whole, Double, finite, pos, nan, minus_infinity, plus_infinity, negsuc,
}
use ai_support_agent_builder.Chat.Sources.Header.{ChunkHit}
use ai_support_agent_builder.Retrieval.{
  Corpus, ChunkRow, is_searched, hit_of_row, score_of, nearest, max_k, clamp_k,
}
use ai_support_agent_builder.Retrieval.Rows.{
  IsHitOf, IsOwn, HitsOf, OwnRows, is_searched-IsOwn, keep-OwnRows,
}

clamp_k-least : (k : Double) → 1 ≤ clamp_k k
unfolding clamp_k
clamp_k-least (finite (pos n)) = ground arith
clamp_k-least (finite (negsuc n)) = ground arith
clamp_k-least nan = ground arith
clamp_k-least minus_infinity = ground arith
clamp_k-least plus_infinity = ground arith

clamp_k-most : (k : Double) → clamp_k k ≤ max_k
unfolding clamp_k
clamp_k-most (finite (pos n)) = ground arith
clamp_k-most (finite (negsuc n)) = ground arith
clamp_k-most nan = ground arith
clamp_k-most minus_infinity = ground arith
clamp_k-most plus_infinity = ground arith

unit_positive : 0 < unit
unfolding unit
unit_positive = one-le-pow 1074 2 (omega arith)

clamp_k-whole : (m : ℕ) → clamp_k (whole m) ≡ min (max m 1) max_k
unfolding clamp_k whole
clamp_k-whole m = ap (λ n. min (max n 1) max_k) (mul-div_cancel m unit_positive)

abbrev AllPass : (ChunkRow → Bool) → List ChunkRow → Type 0
AllPass test [] = Unit
AllPass test (row ∷ rows) = (test row ≡ true) × AllPass test rows

keep-true : (rows : List ChunkRow) → keep (λ row. true) rows ≡ rows
unfolding keep
keep-true [] = refl
keep-true (row ∷ rows) = ap (λ more. row ∷ more) (keep-true rows)

none_fails :
    (test : ChunkRow → Bool) (rows : List ChunkRow)
    → length (keep (λ row. not (test row)) rows) ≡ 0
    → AllPass test rows
unfolding keep
none_fails test [] h = tt
none_fails test (row ∷ rows) h = elim (Bool-cases (test row)) [
  | inl e ↦ (e, none_fails test rows (let k = rw e at h in k))
  | inr e ↦ let k = rw e at h in absurd (omega (arith, k))
]

kept_pass :
    (test : ChunkRow → Bool) (rows : List ChunkRow)
    → length (keep (λ row. not (test row)) (keep test rows)) ≡ 0
unfolding keep
kept_pass test [] = refl
kept_pass test (row ∷ rows) = elim (Bool-cases (test row)) [
  | inl e ↦ rw (e, e) (kept_pass test rows)
  | inr e ↦ rw e (kept_pass test rows)
]

AllPass-take :
    (test : ChunkRow → Bool) (n : ℕ) (rows : List ChunkRow)
    → AllPass test rows
    → AllPass test (take n rows)
AllPass-take test zero rows h = tt
AllPass-take test (suc n) [] h = tt
AllPass-take test (suc n) (row ∷ rows) (e, h) = (e, AllPass-take test n rows h)

module _ (corpus : Corpus) (tenant assistant : List ℕ) where
  hit_of_row-IsHitOf :
      (vector : List Double) (row : ChunkRow)
      → IsOwn tenant assistant row
      → IsHitOf corpus vector row (hit_of_row corpus vector row)
  hit_of_row-IsHitOf vector row h = record {
    embedding = h.embedding;
    embedded = h.embedded;
    score = ap (score_of corpus vector) h.embedded;
    id = refl;
    content = refl;
    document = refl;
    title = refl;
    page = refl;
    section = refl;
    char_start = refl;
    char_end = refl;
  }

  map-HitsOf :
      (vector : List Double) (rows : List ChunkRow)
      → AllPass (is_searched tenant assistant) rows
      → HitsOf corpus tenant assistant vector rows (map (hit_of_row corpus vector) rows)
  map-HitsOf vector [] h = tt
  map-HitsOf vector (row ∷ rows) (e, h) =
      let o = is_searched-IsOwn tenant assistant row e in
      (o, hit_of_row-IsHitOf vector row o, map-HitsOf vector rows h)

  length-map-hits :
      (vector : List Double) (rows : List ChunkRow)
      → length (map (hit_of_row corpus vector) rows) ≡ length rows
  length-map-hits vector [] = refl
  length-map-hits vector (row ∷ rows) = ap suc (length-map-hits vector rows)

-- What `ORDER BY` is documented to do: the rows are reordered, so that of the ordered rows as many
-- pass any test as before.
abbrev pub IsReordering : Corpus → Type 0
IsReordering corpus =
    (vector : List Double) (rows : List ChunkRow) (test : ChunkRow → Bool)
    → length (keep test (corpus.by_distance vector rows)) ≡ length (keep test rows)

-- The nearest of all own rows, as many as the limit allows: a whole `k`, brought between 1 and
-- 100, and for any other number a limit between these.
pub record Nearest (corpus : Corpus) (tenant assistant : List ℕ) (vector : List Double) (k : Double)
    (hits : List ChunkHit) : Type 0 where
  pub own_rows : List ChunkRow
  pub all_own : OwnRows tenant assistant corpus.rows own_rows
  pub limit : ℕ
  pub at_least : 1 ≤ limit
  pub at_most : limit ≤ 100
  pub asked : (m : ℕ) → k ≡ whole m → limit ≡ min (max m 1) 100
  pub taken :
      HitsOf corpus tenant assistant vector (take limit (corpus.by_distance vector own_rows)) hits
  pub size : length hits ≡ min limit (length own_rows)

module _ (corpus : Corpus) (reorders : IsReordering corpus) (tenant assistant : List ℕ) where
  by_distance-length :
      (vector : List Double) (rows : List ChunkRow)
      → length (corpus.by_distance vector rows) ≡ length rows
  by_distance-length vector rows =
      sym (ap length (keep-true (corpus.by_distance vector rows)))
      ∙ (reorders vector rows (λ row. true) ∙ ap length (keep-true rows))

  pub nearest-Nearest :
      (vector : List Double) (k : Double)
      → Nearest corpus tenant assistant vector k
          (nearest corpus tenant assistant vector (clamp_k k))
  unfolding nearest
  nearest-Nearest vector k =
      let test = is_searched tenant assistant in
      let rows = keep test corpus.rows in
      let sorted = corpus.by_distance vector rows in
      record {
        own_rows = rows;
        all_own = keep-OwnRows tenant assistant corpus.rows;
        limit = clamp_k k;
        at_least = clamp_k-least k;
        at_most = clamp_k-most k;
        asked = λ m e. ap clamp_k e ∙ clamp_k-whole m;
        taken = map-HitsOf corpus tenant assistant vector (take (clamp_k k) sorted) (
            AllPass-take test (clamp_k k) sorted (
              none_fails test sorted
                (reorders vector rows (λ row. not (test row)) ∙ kept_pass test corpus.rows)));
        size =
            length-map-hits corpus tenant assistant vector (take (clamp_k k) sorted)
            ∙ (length-take (clamp_k k) sorted
                ∙ ap (min (clamp_k k)) (by_distance-length vector rows));
      }
