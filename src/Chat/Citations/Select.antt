-- ===== src/Chat/Citations/Select.antt =====
-- Which sources `buildCitations` cites, and what a citation says of its source.
use ai_support_agent_builder.Prelude.{
  ℕ, List, [], ◌∷◌, ◌++◌, map, keep, drop, min, true, false, ◌==◌, ==_iff, if_elim, length,
  length-take, take-append-drop, ◌≡◌, ◌≢◌, ◌⊎◌, inl, inr, refl, sym, Bool-cases,
}
use ai_support_agent_builder.Chat.Sources.Assemble.{AssembledSource}
use ai_support_agent_builder.Chat.Citations.{
  Citation, cited_markers, has, citation_of, build_citations,
}

-- The number is one of the markers, or none of them.
abbrev pub IsCited : ℕ → List ℕ → Type 0
IsCited n [] = ⊥
IsCited n (m ∷ ms) = (m ≡ n) ⊎ IsCited n ms

abbrev pub NotCited : ℕ → List ℕ → Type 0
NotCited n [] = Unit
NotCited n (m ∷ ms) = (m ≢ n) × NotCited n ms

-- A citation points at its source: its number, document and place, and the first 300 units of its
-- text (all of it where it is shorter).
pub record PointsAt (s : AssembledSource) (c : Citation) : Type 0 where
  pub marker : c.marker ≡ s.marker
  pub document : c.document_id ≡ s.document_id
  pub title : c.title ≡ s.title
  pub page : c.page ≡ s.page
  pub section : c.section ≡ s.section
  pub char_start : c.char_start ≡ s.char_start
  pub char_end : c.char_end ≡ s.char_end
  pub more : List ℕ
  pub snippet : s.content ≡ c.snippet ++ more
  pub size : length c.snippet ≡ min 300 (length s.content)

-- Of the sources, those with a cited number have their citation, in order, and the others none.
pub data Selected (cited : List ℕ) : List AssembledSource → List Citation → Type 0 where
  done : Selected cited [] []
  cites :
      (s : AssembledSource) (c : Citation) (ss : List AssembledSource) (cs : List Citation)
      → IsCited s.marker cited
      → PointsAt s c
      → Selected cited ss cs
      → Selected cited (s ∷ ss) (c ∷ cs)
  skips :
      (s : AssembledSource) (ss : List AssembledSource) (cs : List Citation)
      → NotCited s.marker cited
      → Selected cited ss cs
      → Selected cited (s ∷ ss) cs

has-IsCited : (n : ℕ) (ms : List ℕ) → has ms n ≡ true → IsCited n ms
unfolding has
has-IsCited n [] h = cc
has-IsCited n (m ∷ ms) h = elim (Bool-cases (m == n)) [
  | inl e ↦ inl ((==_iff m n).0 e)
  | inr e ↦ inr (has-IsCited n ms (let k = rw e at h in k))
]

has-NotCited : (n : ℕ) (ms : List ℕ) → has ms n ≡ false → NotCited n ms
unfolding has
has-NotCited n [] h = tt
has-NotCited n (m ∷ ms) h = elim (Bool-cases (m == n)) [
  | inl e ↦ let k = rw e at h in absurd (cc)
  | inr e ↦ (
    (λ same. let f = (==_iff m n).1 same in absurd (cc)),
    has-NotCited n ms (let k = rw e at h in k),
  )
]

citation_of-PointsAt : (s : AssembledSource) → PointsAt s (citation_of s)
unfolding citation_of
citation_of-PointsAt s = record {
  marker = refl;
  document = refl;
  title = refl;
  page = refl;
  section = refl;
  char_start = refl;
  char_end = refl;
  more = drop 300 s.content;
  snippet = sym (take-append-drop 300 s.content);
  size = length-take 300 s.content;
}

-- The citations of an answer are, in the order of the sources, one for each source whose number is
-- among the numbers that the answer cites, and none for the others; each points at its source, with
-- the number, the document, the title, the page, the section and the offsets of the source, and with
-- the first 300 units of its text.
pub build_citations-Selected :
    (answer : List ℕ) (sources : List AssembledSource)
    → Selected (cited_markers answer) sources (build_citations answer sources)
unfolding build_citations keep
build_citations-Selected answer [] = done
build_citations-Selected answer (s ∷ ss) =
    let cited = cited_markers answer in
    if_elim (λ l. Selected cited (s ∷ ss) (map citation_of l)) (has cited s.marker) _ _
      (λ e.
        cites s (citation_of s) ss _ (has-IsCited s.marker cited e) (citation_of-PointsAt s)
          (build_citations-Selected answer ss))
      (λ e. skips s ss _ (has-NotCited s.marker cited e) (build_citations-Selected answer ss))
