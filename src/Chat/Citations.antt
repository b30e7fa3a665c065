-- ===== src/Chat/Citations.antt =====
-- api/src/chat/citations.ts: the sources that an answer cites.
pub mod Markers
pub mod Select
use ai_support_agent_builder.Prelude.{
  ℕ, zero, suc, ◌+◌, List, [], ◌∷◌, ◌++◌, map, Option, none, some, Bool, true, false, ◌||◌, ◌==◌,
  drop, take, keep, if◌then◌else◌, if_elim, ◌≡◌, refl, ==_iff, inl, inr, Bool-cases, length, ◌≤◌,
  arith,
}
use ai_support_agent_builder.Text.{codes, span, is_digit, number, match_all, Found}
use ai_support_agent_builder.Chat.Sources.Assemble.{AssembledSource}

pub record Citation : Type 0 where
  pub marker : ℕ
  pub document_id : List ℕ
  pub title : List ℕ
  pub page : Option ℕ
  pub section : Option (List ℕ)
  pub char_start : Option ℕ
  pub char_end : Option ℕ
  pub snippet : List ℕ

abbrev pub snippet_max : ℕ
snippet_max = 300

-- The digits count as a marker where a `]` follows.
unfoldable pub closed_by : List ℕ → Option (ℕ × List ℕ) → Option (ℕ × List ℕ)
closed_by [] found = none
closed_by (c ∷ rest) found = if c == b']' then found else none

-- `\[(\d+)\]` behind the bracket: the run of digits is greedy, and a `]` must follow.
unfoldable pub marker_behind : List ℕ → Option (ℕ × List ℕ)
unfolding span is_digit closed_by
marker_behind s =
    let digits = span is_digit s in
    if digits == 0 then none else closed_by (drop digits s) (some (digits + 2, take digits s))

-- `MARKER_RE` at one place.
unfoldable pub marker_at : List ℕ → Option (ℕ × List ℕ)
unfolding marker_behind
marker_at [] = none
marker_at (c ∷ s) = if c == b'[' then marker_behind s else none

-- The numbers are read as `Number` reads them; a double holds each up to 2 ^ 53 exactly, and none
-- above it is the marker of a source.
unfoldable pub cited_markers : List ℕ → List ℕ
unfolding match_all marker_at number
cited_markers answer = map (λ m. number m.taken) (match_all marker_at answer)

-- `cited.has(marker)`
unfoldable pub has : List ℕ → ℕ → Bool
has [] marker = false
has (m ∷ ms) marker = m == marker || has ms marker

unfoldable pub citation_of : AssembledSource → Citation
citation_of s = record {
  marker = s.marker;
  document_id = s.document_id;
  title = s.title;
  page = s.page;
  section = s.section;
  char_start = s.char_start;
  char_end = s.char_end;
  snippet = take snippet_max s.content;
}

unfoldable pub build_citations : List ℕ → List AssembledSource → List Citation
unfolding cited_markers has citation_of
build_citations answer sources =
    let cited = cited_markers answer in map citation_of (keep (λ s. has cited s.marker) sources)

cited_markers_example : cited_markers (codes "a [1] b [x] [] [12][3") ≡ 1 ∷ 12 ∷ []
unfolding cited_markers
cited_markers_example = refl
