-- ===== src/Chunking/Split/Bounds.antt =====
-- The sub-blocks of an oversized block are slices of it, in order, and within the budget.
use ai_support_agent_builder.Prelude.{
  ℕ, zero, suc, ◌+◌, ◌≤◌, ◌<◌, List, [], ◌∷◌, ◌-◌, ◌≡◌, refl, inl, inr, Bool, none, some,
  Option-cases, arith, length, slice, drop, ltb, Bool-cases, length-drop,
}
use ai_support_agent_builder.Text.{is_space, is_blank_text, span, Found, match_all, match_from}
use ai_support_agent_builder.Text.Occurs.{Occurs, Occurs-slice, Occurs-within}
use ai_support_agent_builder.Parsing.Types.{AnchoredBlock}
use ai_support_agent_builder.Chunking.Tokenizer.{Encoder, count_tokens}
use ai_support_agent_builder.Chunking.Split.{
  is_terminator, sentence_end, Sentence, sentences_from, sentences, sub_block, subs_from,
  split_oversized_block,
}

span-le : (test : ℕ → Bool) (s : List ℕ) → span test s ≤ length s
unfolding span
span-le test [] = omega arith
span-le test (c ∷ s) = ground (arith, span-le test s)

-- A match is not empty and lies in the text.
sentence_end-bounds :
    (s : List ℕ) (n : ℕ) → sentence_end s ≡ some (n, tt) → (0 < n) × (n ≤ length s)
unfolding sentence_end
sentence_end-bounds s n h =
    let marks = span is_terminator s in
    ground (arith, span-le is_terminator s, span-le is_space (drop marks s), length-drop marks s)

-- Matches lie one behind the other from `pos` on, in a text that ends at `size`.
abbrev Ordered : ℕ → List (Found (Unit {0})) → ℕ → Type 0
Ordered pos [] size = pos ≤ size
Ordered pos (m ∷ ms) size = (pos ≤ m.index) × (0 < m.size) × Ordered (m.index + m.size) ms size

Ordered-weaken :
    (p q : ℕ) (ms : List (Found (Unit {0}))) (size : ℕ)
    → p ≤ q
    → Ordered q ms size
    → Ordered p ms size
Ordered-weaken p q [] size h o = omega arith
Ordered-weaken p q (m ∷ ms) size h (a, b, c) = (omega arith, b, c)

match_from-Ordered :
    (skip pos : ℕ) (s : List ℕ) (start size : ℕ)
    → skip ≤ length s
    → pos + skip ≡ start
    → pos + length s ≡ size
    → Ordered start (match_from sentence_end skip pos s) size
unfolding match_from
match_from-Ordered skip pos [] start size h e f = omega arith
match_from-Ordered (suc skip) pos (c ∷ s) start size h e f =
    match_from-Ordered skip (suc pos) s start size (omega arith) (omega arith) (omega arith)
match_from-Ordered zero pos (c ∷ s) start size h e f = elim (Option-cases (sentence_end (c ∷ s))) [
  | inl fails ↦
      rw (fails, match_from)
        (Ordered-weaken start (suc pos) (match_from sentence_end 0 (suc pos) s) size (omega arith) (
          match_from-Ordered zero (suc pos) s (suc pos) size (omega arith) (omega arith)
            (omega arith)))
  | inr ((n, u), found) ↦
      let bounds = sentence_end-bounds (c ∷ s) n found in
      rw (found, match_from)
        (
          omega arith,
          omega arith,
          match_from-Ordered (n - 1) (suc pos) s (pos + n) size (omega (arith, bounds))
              (omega (arith, bounds)) (omega arith),
        )
]

match_all-Ordered : (s : List ℕ) → Ordered 0 (match_all sentence_end s) (length s)
unfolding match_all
match_all-Ordered s = match_from-Ordered 0 0 s 0 (length s) (omega arith) refl (omega arith)

-- Sentences lie in the text, in their order.
abbrev pub InOrder : ℕ → List Sentence → ℕ → Type 0
InOrder pos [] size = pos ≤ size
InOrder pos (s ∷ ss) size = (pos ≤ s.start) × (s.start < s.end) × InOrder s.end ss size

InOrder-weaken :
    (p q : ℕ) (ss : List Sentence) (size : ℕ) → p ≤ q → InOrder q ss size → InOrder p ss size
InOrder-weaken p q [] size h o = omega arith
InOrder-weaken p q (s ∷ ss) size h (a, b, c) = (omega arith, b, c)

sentences_from-InOrder :
    (text : List ℕ) (last : ℕ) (ms : List (Found (Unit {0})))
    → Ordered last ms (length text)
    → InOrder last (sentences_from text last ms) (length text)
unfolding sentences_from
sentences_from-InOrder text last [] o = ground arith
sentences_from-InOrder text last (m ∷ ms) (a, b, c) =
    let ih = sentences_from-InOrder text (m.index + m.size) ms c in
    elim (Bool-cases (is_blank_text (slice text last (m.index + m.size)))) [
      | inl blank ↦
          rw blank (InOrder-weaken last (m.index + m.size) _ (length text) (omega arith) ih)
      | inr full ↦ rw full (omega arith, omega arith, ih)
    ]

pub sentences-InOrder : (text : List ℕ) → InOrder 0 (sentences text) (length text)
unfolding sentences
sentences-InOrder text =
    sentences_from-InOrder text 0 (match_all sentence_end text) (match_all-Ordered text)

-- Blocks whose offsets cut their texts out of `text`, not empty, in their order and without
-- overlap, from `lo` to `hi`.
abbrev pub Spans : List ℕ → ℕ → List AnchoredBlock → ℕ → Type 0
Spans text lo [] hi = lo ≤ hi
Spans text lo (b ∷ bs) hi =
    (lo ≤ b.char_start)
    × (b.char_start < b.char_end)
    × Occurs text b.text b.char_start b.char_end
    × Spans text b.char_end bs hi

pub Spans-weaken :
    (text : List ℕ) (lo lo' : ℕ) (bs : List AnchoredBlock) (hi : ℕ)
    → lo ≤ lo'
    → Spans text lo' bs hi
    → Spans text lo bs hi
Spans-weaken text lo lo' [] hi h s = omega arith
Spans-weaken text lo lo' (b ∷ bs) hi h (a, c, o, r) = (omega arith, c, o, r)

module _ (text : List ℕ) (enc : Encoder) (block : AnchoredBlock) (max_tokens : ℕ)
    (placed : Occurs text block.text block.char_start block.char_end) where
  sub_block-Occurs :
      (start end : ℕ)
      → start ≤ end
      → end ≤ length block.text
      → Occurs text (slice block.text start end) (block.char_start + start) (block.char_start + end)
  sub_block-Occurs start end h k = Occurs-within placed (Occurs-slice block.text start end h k)

  -- What `push` adds in front of the sub-blocks that follow.
  push-Spans :
      (start end : ℕ) (rest : List AnchoredBlock)
      → start < end
      → end ≤ length block.text
      → Spans text (block.char_start + end) rest block.char_end
      → Spans text (block.char_start + start) (sub_block block start end ∷ rest) block.char_end
  unfolding sub_block
  push-Spans start end rest h k r =
      (omega arith, omega arith, sub_block-Occurs start end (omega arith) k, r)

  InOrder-le : (p : ℕ) (ss : List Sentence) (size : ℕ) → InOrder p ss size → p ≤ size
  InOrder-le p [] size h = h
  InOrder-le p (s ∷ ss) size (a, b, c) = omega (arith, InOrder-le s.end ss size c)

  subs_from-Spans :
      (start end tokens : ℕ) (ss : List Sentence)
      → start < end
      → InOrder end ss (length block.text)
      → Spans text
          (block.char_start + start)
          (subs_from enc block max_tokens (some start) end tokens ss)
          block.char_end
  unfolding subs_from
  subs_from-Spans start end tokens [] h o = push-Spans start end [] h o (omega (arith, placed.ends))
  subs_from-Spans start end tokens (s ∷ ss) h (a, b, o) =
      let t = count_tokens enc (slice block.text s.start s.end) in
      let le = InOrder-le s.end ss (length block.text) o in
      elim (Bool-cases (ltb max_tokens (tokens + t))) [
        | inl full ↦ rw full (
            push-Spans start end _ h (omega arith) (
              Spans-weaken text (block.char_start + end) (block.char_start + s.start) _
                block.char_end (omega arith) (subs_from-Spans s.start s.end t ss b o)))
        | inr room ↦ rw room (subs_from-Spans start s.end (tokens + t) ss (omega arith) o)
      ]

  subs-Spans :
      (ss : List Sentence)
      → InOrder 0 ss (length block.text)
      → Spans text block.char_start (subs_from enc block max_tokens none 0 0 ss) block.char_end
  unfolding subs_from
  subs-Spans [] o = omega (arith, placed.ends)
  subs-Spans (s ∷ ss) (a, b, o) =
      Spans-weaken text block.char_start (block.char_start + s.start) _ block.char_end (omega arith)
        (subs_from-Spans s.start s.end _ ss b o)

  -- The sub-blocks of an oversized block that stands in a text at its offsets are slices of that
  -- text, in order, disjoint, not empty, and inside the block.
  pub split_oversized_block-Spans :
      block.char_start < block.char_end
      → Spans text block.char_start (split_oversized_block enc block max_tokens) block.char_end
  unfolding split_oversized_block
  split_oversized_block-Spans h =
      whole (subs_from enc block max_tokens none 0 0 (sentences block.text))
        (subs-Spans (sentences block.text) (sentences-InOrder block.text))
    where
      whole :
          (subs : List AnchoredBlock)
          → Spans text block.char_start subs block.char_end
          → Spans text block.char_start
              (elim subs [ [] ↦ block ∷ [] | b ∷ bs ↦ b ∷ bs ])
              block.char_end
      whole [] o = (omega arith, h, placed, omega arith)
      whole (b ∷ bs) o = o
