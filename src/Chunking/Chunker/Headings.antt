-- ===== src/Chunking/Chunker/Headings.antt =====
-- The heading stack of the chunker: which headings form the section path.
use mathlib.Core.List.{reverse, reverse-cons}
use ai_support_agent_builder.Prelude.{
  ℕ, ◌+◌, ◌<◌, ◌≤◌, List, [], ◌∷◌, ◌++◌, ◌≡◌, refl, sym, ap, ◌∙◌, Bool, true, false, ◌&&◌, arith,
  ltb, leb, if◌then◌else◌, Bool-cases, if_elim, inl, inr, append_assoc, append-nil,
}
use ai_support_agent_builder.Text.{is_blank_text}
use ai_support_agent_builder.Parsing.Types.{AnchoredBlock}
use ai_support_agent_builder.Chunking.Tokenizer.{Encoder, count_tokens}
use ai_support_agent_builder.Chunking.Split.{split_oversized_block}
use ai_support_agent_builder.Chunking.Chunker.{
  ChunkOptions, HeadingRef, Chunker, pop_headings, update_headings, level_or_one, flush_body, flush,
  flush_subs, on_heading, on_oversized, on_paragraph, chunk_block, chunk_blocks,
}

-- No later heading is at the same level or above.
abbrev stays_open : List HeadingRef → HeadingRef → Bool
stays_open [] h = true
stays_open (l ∷ later) h = ltb h.level l.level && stays_open later h

-- The headings of a document that are open at its end, in their order.
abbrev pub open_headings : List HeadingRef → List HeadingRef
open_headings [] = []
open_headings (h ∷ later) =
    let rest = open_headings later in if stays_open later h then h ∷ rest else rest

abbrev keep : (HeadingRef → Bool) → List HeadingRef → List HeadingRef
keep test [] = []
keep test (h ∷ hs) = let rest = keep test hs in if test h then h ∷ rest else rest

-- All of the stack lies above `level`, and each heading above those on top of it.
abbrev Above : ℕ → List HeadingRef → Type 0
Above level [] = Unit
Above level (h ∷ hs) = (h.level < level) × Above level hs

abbrev pub IsNested : List HeadingRef → Type 0
IsNested [] = Unit
IsNested (h ∷ hs) = Above h.level hs × IsNested hs

Above-mono : (a b : ℕ) (hs : List HeadingRef) → a ≤ b → Above a hs → Above b hs
Above-mono a b [] h u = tt
Above-mono a b (x ∷ hs) h (p, u) = (omega arith, Above-mono a b hs h u)

keep_all :
    (level : ℕ) (hs : List HeadingRef) → Above level hs → keep (λ h. ltb h.level level) hs ≡ hs
keep_all level [] u = refl
keep_all level (h ∷ hs) (p, u) = ground (arith, keep_all level hs u)

-- On a nested stack popping is filtering.
pop_headings-keep :
    (level : ℕ) (hs : List HeadingRef)
    → IsNested hs
    → pop_headings level hs ≡ keep (λ h. ltb h.level level) hs
unfolding pop_headings
pop_headings-keep level [] n = refl
pop_headings-keep level (h ∷ hs) (a, n) = elim (Bool-cases (leb level h.level)) [
  | inl deep ↦ rw deep (pop_headings-keep level hs n ∙ ground arith)
  | inr shallow ↦
      let all_kept = keep_all level hs (Above-mono h.level level hs (ground arith) a) in
      rw shallow (ground (arith, all_kept))
]

pop_headings-Above :
    (level : ℕ) (hs : List HeadingRef)
    → IsNested hs
    → Above level (pop_headings level hs) × IsNested (pop_headings level hs)
unfolding pop_headings
pop_headings-Above level [] n = (tt, tt)
pop_headings-Above level (h ∷ hs) (a, n) = elim (Bool-cases (leb level h.level)) [
  | inl deep ↦ rw deep (pop_headings-Above level hs n)
  | inr shallow ↦ rw shallow ((ground arith, Above-mono h.level level hs (ground arith) a), (a, n))
]

abbrev push_all : List HeadingRef → List HeadingRef → List HeadingRef
push_all stack [] = stack
push_all stack (h ∷ hs) = push_all (update_headings stack h.level h.text) hs

update_headings-IsNested :
    (stack : List HeadingRef) (level : ℕ) (text : List ℕ)
    → IsNested stack
    → IsNested (update_headings stack level text)
unfolding update_headings
update_headings-IsNested stack level text n = pop_headings-Above level stack n

keep-keep :
    (p q : HeadingRef → Bool) (hs : List HeadingRef)
    → keep q (keep p hs) ≡ keep (λ h. p h && q h) hs
keep-keep p q [] = refl
keep-keep p q (h ∷ hs) = ground (arith, keep-keep p q hs)

keep-true : (hs : List HeadingRef) → keep (λ h. true) hs ≡ hs
keep-true [] = refl
keep-true (h ∷ hs) = ap (λ t. h ∷ t) (keep-true hs)

newest :
    (stack : List HeadingRef) (l : HeadingRef) (ls : List HeadingRef)
    → IsNested stack
    → reverse (open_headings ls) ++ keep (stays_open ls) (update_headings stack l.level l.text)
      ≡ reverse (open_headings (l ∷ ls)) ++ keep (stays_open (l ∷ ls)) stack
unfolding update_headings
newest stack l ls n =
    let older =
      ap (keep (stays_open ls)) (pop_headings-keep l.level stack n)
      ∙ keep-keep (λ h. ltb h.level l.level) (stays_open ls) stack in
    elim (Bool-cases (stays_open ls l)) [
      | inl opened ↦ rw (opened, older, reverse-cons, append_assoc)
      | inr shut ↦ rw (shut, older)
    ]

push_all-eq :
    (stack hs : List HeadingRef)
    → IsNested stack
    → push_all stack hs ≡ reverse (open_headings hs) ++ keep (stays_open hs) stack
push_all-eq stack [] n = sym (keep-true stack)
push_all-eq stack (l ∷ ls) n =
    push_all-eq (update_headings stack l.level l.text) ls
      (update_headings-IsNested stack l.level l.text n)
    ∙ newest stack l ls n

-- The headings among the blocks, as the chunker reads them.
abbrev pub headings_of : List AnchoredBlock → List HeadingRef
headings_of [] = []
headings_of (b ∷ bs) =
    let rest = headings_of bs in
    if b.heading then record { level = level_or_one b.level; text = b.text } ∷ rest else rest

module _ (enc : Encoder) (options : ChunkOptions) where
  flush_body-headings :
      (c : Chunker) (body : List AnchoredBlock)
      → (flush_body enc options c body).headings ≡ c.headings
  unfolding flush_body
  flush_body-headings c [] = refl
  flush_body-headings c (b ∷ bs) = refl

  flush-headings : (c : Chunker) → (flush enc options c).headings ≡ c.headings
  unfolding flush
  flush-headings c = flush_body-headings c c.body

  flush_subs-headings :
      (c : Chunker) (subs : List AnchoredBlock)
      → (flush_subs enc options c subs).headings ≡ c.headings
  unfolding flush_subs
  flush_subs-headings c [] = refl
  flush_subs-headings c (b ∷ bs) =
      let d = record c { body = b ∷ []; body_tokens = count_tokens enc b.text } in
      flush_subs-headings (flush enc options d) bs ∙ flush-headings d

  on_paragraph-headings :
      (c : Chunker) (b : AnchoredBlock) → (on_paragraph enc options c b).headings ≡ c.headings
  unfolding on_paragraph
  on_paragraph-headings c b =
      if_elim (λ (d : Chunker). d.headings ≡ c.headings)
        (ltb options.max_tokens (c.body_tokens + count_tokens enc b.text)) (flush enc options c) c
        (λ _. flush-headings c) (λ _. refl)

  on_oversized-headings :
      (c : Chunker) (b : AnchoredBlock) → (on_oversized enc options c b).headings ≡ c.headings
  unfolding on_oversized
  on_oversized-headings c b =
      flush_subs-headings (record (flush enc options c) { overlap = [] })
        (split_oversized_block enc b options.max_tokens)
      ∙ flush-headings c

  by_flag :
      (flag : Bool) (x y : Chunker) (stack : List HeadingRef) (h : HeadingRef)
      → x.headings ≡ update_headings stack h.level h.text
      → y.headings ≡ stack
      → (if flag then x else y).headings ≡ push_all stack (if flag then h ∷ [] else [])
  by_flag true x y stack h p q = p
  by_flag false x y stack h p q = q

  on_heading-headings :
      (c : Chunker) (b : AnchoredBlock)
      → (on_heading enc options c b).headings
        ≡ update_headings c.headings (level_or_one b.level) b.text
  unfolding on_heading
  on_heading-headings c b =
      ap (λ hs. update_headings hs (level_or_one b.level) b.text) (flush-headings c)

  chunk_block-headings :
      (c : Chunker) (b : AnchoredBlock)
      → (chunk_block enc options c b).headings ≡ push_all c.headings (headings_of (b ∷ []))
  unfolding chunk_block
  chunk_block-headings c b =
      by_flag b.heading _ _ c.headings (record { level = level_or_one b.level; text = b.text })
        (on_heading-headings c b)
        (if_elim (λ (d : Chunker). d.headings ≡ c.headings) (is_blank_text b.text) c _ (λ _. refl)
          (λ _.
            if_elim (λ (d : Chunker). d.headings ≡ c.headings)
              (ltb options.max_tokens (count_tokens enc b.text)) (on_oversized enc options c b)
              (on_paragraph enc options c b) (λ _. on_oversized-headings c b)
              (λ _. on_paragraph-headings c b)))

  push_all-cons :
      (flag : Bool) (stack : List HeadingRef) (h : HeadingRef) (hs : List HeadingRef)
      → push_all (push_all stack (if flag then h ∷ [] else [])) hs
        ≡ push_all stack (if flag then h ∷ hs else hs)
  push_all-cons true stack h hs = refl
  push_all-cons false stack h hs = refl

  push_all-chunk_blocks :
      (c : Chunker) (bs : List AnchoredBlock)
      → (chunk_blocks enc options c bs).headings ≡ push_all c.headings (headings_of bs)
  unfolding chunk_blocks
  push_all-chunk_blocks c [] = refl
  push_all-chunk_blocks c (b ∷ bs) =
      push_all-chunk_blocks (chunk_block enc options c b) bs
      ∙ ap (λ hs. push_all hs (headings_of bs)) (chunk_block-headings c b)
      ∙ push_all-cons b.heading c.headings (record { level = level_or_one b.level; text = b.text })
          (headings_of bs)

  -- After any blocks the chunker's stack, read from the bottom, holds exactly the headings that
  -- are still open: those behind which no heading of the same or a higher rank has come.
  pub chunk_blocks-open_headings :
      (c : Chunker) (bs : List AnchoredBlock)
      → c.headings ≡ []
      → (chunk_blocks enc options c bs).headings ≡ reverse (open_headings (headings_of bs))
  chunk_blocks-open_headings c bs e =
      push_all-chunk_blocks c bs
      ∙ ap (λ hs. push_all hs (headings_of bs)) e
      ∙ push_all-eq [] (headings_of bs) tt
      ∙ append-nil (reverse (open_headings (headings_of bs)))
