-- ===== src/Chunking/Split.antt =====
-- `splitOversizedBlock` of api/src/ingestion/chunking/chunker.ts.
pub mod Bounds
use ai_support_agent_builder.Prelude.{
  ℕ, zero, suc, ◌+◌, List, [], ◌∷◌, Bool, true, false, ◌&&◌, ◌||◌, not, Option, none, some, length,
  slice, drop, ltb, ◌==◌, if◌then◌else◌, map,
}
use ai_support_agent_builder.Text.{is_empty, is_space, is_blank_text, span, Found, match_all}
use ai_support_agent_builder.Parsing.Types.{AnchoredBlock}
use ai_support_agent_builder.Chunking.Tokenizer.{Encoder, count_tokens}

-- `[.!?]`
unfoldable pub is_terminator : ℕ → Bool
is_terminator c = c == b'.' || c == b'!' || c == b'?'

-- `/[.!?]+(?:\s+|$)/` at one place: the length of the match.
unfoldable pub sentence_end : List ℕ → Option (ℕ × Unit {0})
unfolding is_terminator span is_space
sentence_end s =
    let marks = span is_terminator s in
    let rest = drop marks s in
    let spaces = span is_space rest in
    if marks == 0
    then none
    else if is_empty rest || ltb 0 spaces
    then some (marks + spaces, tt)
    else none

-- `{ start, end }` of a sentence, in the block's text.
pub record Sentence : Type 0 where
  pub start : ℕ
  pub end : ℕ

-- The loop over the matches, and the rest behind the last of them. `last` is the loop's variable.
unfoldable pub sentences_from : List ℕ → ℕ → List (Found (Unit {0})) → List Sentence
unfolding is_blank_text
sentences_from text last [] =
    if ltb last (length text) && not (is_blank_text (drop last text))
    then record { start = last; end = length text } ∷ []
    else []
sentences_from text last (m ∷ ms) =
    let end = m.index + m.size in
    let rest = sentences_from text end ms in
    if is_blank_text (slice text last end) then rest else record { start = last; end = end } ∷ rest

unfoldable pub sentences : List ℕ → List Sentence
unfolding sentences_from match_all sentence_end
sentences text = sentences_from text 0 (match_all sentence_end text)

-- The sub-block from `start` to the cursor's end.
unfoldable pub sub_block : AnchoredBlock → ℕ → ℕ → AnchoredBlock
sub_block block start end = record {
  text = slice block.text start end;
  page = block.page;
  heading = false;
  level = none;
  char_start = block.char_start + start;
  char_end = block.char_start + end;
}

module _ (enc : Encoder) (block : AnchoredBlock) (max_tokens : ℕ) where
  -- The loop over the sentences; the result is what is pushed from here on.
  unfoldable pub subs_from : Option ℕ → ℕ → ℕ → List Sentence → List AnchoredBlock
  unfolding sub_block count_tokens
  subs_from none end tokens [] = []
  subs_from (some start) end tokens [] = sub_block block start end ∷ []
  subs_from none end tokens (s ∷ ss) =
      subs_from (some s.start) s.end (tokens + count_tokens enc (slice block.text s.start s.end)) ss
  subs_from (some start) end tokens (s ∷ ss) =
      let t = count_tokens enc (slice block.text s.start s.end) in
      let full = ltb max_tokens (tokens + t) in
      let rest =
        subs_from (some (if full then s.start else start)) s.end (if full then t else tokens + t)
          ss in
      if full then sub_block block start end ∷ rest else rest

  unfoldable pub split_oversized_block : List AnchoredBlock
  unfolding subs_from sentences
  split_oversized_block =
      let subs = subs_from none 0 0 (sentences block.text) in
      elim subs [ [] ↦ block ∷ [] | b ∷ bs ↦ b ∷ bs ]
