-- ===== src/Chunking/Chunker/Anchors.antt =====
-- The offsets of chunks: each chunk's own text is what its offsets cut out of the document's text.
use mathlib.Core.Bool.{false≢true}
use ai_support_agent_builder.Prelude.{
  ℕ, zero, suc, ◌+◌, ◌≤◌, ◌<◌, List, [], ◌∷◌, ◌++◌, ◌≡◌, refl, sym, ap, ◌∙◌, arith, length, map,
  ltb, Bool-cases, if_elim, inl, inr, map-append, append_assoc,
}
use ai_support_agent_builder.Text.{is_blank_text, join}
use ai_support_agent_builder.Text.Occurs.{Occurs, Occurs-joined, Occurs-bound}
use ai_support_agent_builder.Parsing.Types.{AnchoredBlock, FormatParseResult}
use ai_support_agent_builder.Parsing.Assemble.{blank_line, assemble}
use ai_support_agent_builder.Parsing.Assemble.Anchors.{separator, Follows, Laid, assemble-Laid}
use ai_support_agent_builder.Chunking.Tokenizer.{Encoder, count_tokens}
use ai_support_agent_builder.Chunking.Split.{split_oversized_block}
use ai_support_agent_builder.Chunking.Split.Bounds.{Spans, split_oversized_block-Spans}
use ai_support_agent_builder.Chunking.Chunker.{
  ChunkDraft, ChunkOptions, Chunker, last_end, body_text, make_chunk, flush_body, flush, flush_subs,
  on_heading, on_oversized, on_paragraph, chunk_block, chunk_blocks, chunk_document,
}

-- Chunks whose offsets cut their texts out of `text`, not empty, in the order of the document and
-- without overlap, from `lo` to `hi`.
abbrev pub ChunkSpans : List ℕ → ℕ → List ChunkDraft → ℕ → Type 0
ChunkSpans text lo [] hi = lo ≤ hi
ChunkSpans text lo (c ∷ cs) hi =
    (lo ≤ c.char_start)
    × (c.char_start < c.char_end)
    × Occurs text c.text c.char_start c.char_end
    × ChunkSpans text c.char_end cs hi

ChunkSpans-weaken :
    (text : List ℕ) (lo : ℕ) (cs : List ChunkDraft) (hi hi' : ℕ)
    → hi ≤ hi'
    → ChunkSpans text lo cs hi
    → ChunkSpans text lo cs hi'
ChunkSpans-weaken text lo [] hi hi' h s = omega arith
ChunkSpans-weaken text lo (c ∷ cs) hi hi' h (a, b, o, r) =
    (a, b, o, ChunkSpans-weaken text c.char_end cs hi hi' h r)

ChunkSpans-snoc :
    (text : List ℕ) (lo : ℕ) (cs : List ChunkDraft) (c : ChunkDraft)
    → ChunkSpans text lo cs c.char_start
    → c.char_start < c.char_end
    → Occurs text c.text c.char_start c.char_end
    → ChunkSpans text lo (cs ++ c ∷ []) c.char_end
ChunkSpans-snoc text lo [] c s h o = (s, h, o, omega arith)
ChunkSpans-snoc text lo (d ∷ cs) c (a, b, p, r) h o =
    (a, b, p, ChunkSpans-snoc text d.char_end cs c r h o)

-- The body stands in the text and ends at `p`; the chunks lie in front of it.
abbrev BodyIsSound : List ℕ → ℕ → List ChunkDraft → List AnchoredBlock → Type 0
BodyIsSound text p chunks [] = ChunkSpans text 0 chunks p
BodyIsSound text p chunks (b ∷ bs) =
    ChunkSpans text 0 chunks b.char_start
    × Occurs text (body_text (b ∷ bs)) b.char_start p
    × (b.char_start < p)
    × (last_end b bs ≡ p)

abbrev IsSound : List ℕ → ℕ → Chunker → Type 0
IsSound text p c = BodyIsSound text p c.chunks c.body

join_snoc :
    (sep t : List ℕ) (ts : List (List ℕ)) (u : List ℕ)
    → join sep ((t ∷ ts) ++ u ∷ []) ≡ join sep (t ∷ ts) ++ (sep ++ u)
unfolding join
join_snoc sep t [] u = refl
join_snoc sep t (t' ∷ ts) u = ap (λ r. t ++ (sep ++ r)) (join_snoc sep t' ts u) ∙ simp append_assoc

last_end_snoc :
    (b : AnchoredBlock) (bs : List AnchoredBlock) (c : AnchoredBlock)
    → last_end b (bs ++ c ∷ []) ≡ c.char_end
unfolding last_end
last_end_snoc b [] c = refl
last_end_snoc b (d ∷ bs) c = last_end_snoc d bs c

body_text_snoc :
    (a : AnchoredBlock) (rest : List AnchoredBlock) (b : AnchoredBlock)
    → body_text (a ∷ (rest ++ b ∷ [])) ≡ body_text (a ∷ rest) ++ (blank_line ++ b.text)
unfolding body_text
body_text_snoc a rest b =
    ap (λ ts. join blank_line (a.text ∷ ts))
      (map-append (λ (x : AnchoredBlock). x.text) rest (b ∷ []))
    ∙ join_snoc blank_line a.text (map (λ x. x.text) rest) b.text

module _ (enc : Encoder) (options : ChunkOptions) (text : List ℕ) where
  -- After a flush the body is empty.
  abbrev IsFlushed : ℕ → Chunker → Type 0
  IsFlushed p c = (c.body ≡ []) × ChunkSpans text 0 c.chunks p

  flush_body-IsFlushed :
      (p : ℕ) (c : Chunker) (body : List AnchoredBlock)
      → c.body ≡ body
      → BodyIsSound text p c.chunks body
      → IsFlushed p (flush_body enc options c body)
  unfolding flush_body make_chunk
  flush_body-IsFlushed p c [] e s = (e, s)
  flush_body-IsFlushed p c (b ∷ bs) e (s, o, h, l) = (
    refl,
    rw (← l) (
        ChunkSpans-snoc text 0 c.chunks (make_chunk enc options c.headings c.overlap b bs) s
          (rw l h) (rw l o)),
  )

  flush-IsFlushed : (p : ℕ) (c : Chunker) → IsSound text p c → IsFlushed p (flush enc options c)
  unfolding flush
  flush-IsFlushed p c s = flush_body-IsFlushed p c c.body refl s

  one_block-Occurs : (b : AnchoredBlock) → body_text (b ∷ []) ≡ b.text
  unfolding body_text join
  one_block-Occurs b = refl

  -- The body of one block.
  single-IsSound :
      (p : ℕ) (c : Chunker) (b : AnchoredBlock)
      → p ≤ b.char_start
      → b.char_start < b.char_end
      → Occurs text b.text b.char_start b.char_end
      → ChunkSpans text 0 c.chunks p
      → BodyIsSound text b.char_end c.chunks (b ∷ [])
  unfolding last_end
  single-IsSound p c b h k o s =
      (ChunkSpans-weaken text 0 c.chunks p b.char_start h s, rw one_block-Occurs o, k, refl)

  flush_subs-IsFlushed :
      (p : ℕ) (c : Chunker) (subs : List AnchoredBlock) (hi : ℕ)
      → IsFlushed p c
      → Spans text p subs hi
      → IsFlushed hi (flush_subs enc options c subs)
  unfolding flush_subs
  flush_subs-IsFlushed p c [] hi (e, s) le = (e, ChunkSpans-weaken text 0 c.chunks p hi le s)
  flush_subs-IsFlushed p c (sub ∷ subs) hi (e, s) (a, b, o, r) =
      let d = record c { body = sub ∷ []; body_tokens = count_tokens enc sub.text } in
      flush_subs-IsFlushed sub.char_end (flush enc options d) subs hi
        (flush-IsFlushed sub.char_end d (single-IsSound p c sub a b o s)) r

  IsFlushed-IsSound : (p : ℕ) (c : Chunker) → IsFlushed p c → IsSound text p c
  IsFlushed-IsSound p c (e, s) = rw e s

  IsFlushed-weaken : (p q : ℕ) (c : Chunker) → p ≤ q → IsFlushed p c → IsFlushed q c
  IsFlushed-weaken p q c h (e, s) = (e, ChunkSpans-weaken text 0 c.chunks p q h s)

  on_heading-IsSound :
      (p : ℕ) (c : Chunker) (b : AnchoredBlock)
      → Follows text p b
      → IsSound text p c
      → IsSound text b.char_end (on_heading enc options c b)
  unfolding on_heading
  on_heading-IsSound p c b f s = IsFlushed-IsSound b.char_end (on_heading enc options c b) (
      IsFlushed-weaken p b.char_end (on_heading enc options c b)
        (omega (arith, f.nonempty, Occurs-bound f.gap)) (flush-IsFlushed p c s))

  on_oversized-IsSound :
      (p : ℕ) (c : Chunker) (b : AnchoredBlock)
      → Follows text p b
      → IsSound text p c
      → IsSound text b.char_end (on_oversized enc options c b)
  unfolding on_oversized
  on_oversized-IsSound p c b f s = IsFlushed-IsSound b.char_end (on_oversized enc options c b) (
      flush_subs-IsFlushed b.char_start (record (flush enc options c) { overlap = [] })
        (split_oversized_block enc b options.max_tokens) b.char_end
        (IsFlushed-weaken p b.char_start (flush enc options c) (Occurs-bound f.gap).0
          (flush-IsFlushed p c s))
        (split_oversized_block-Spans text enc b options.max_tokens f.here f.nonempty))

  blank_gap :
      (p q : ℕ)
      → q < p
      → (start : ℕ) → Occurs text (separator p) p start
      → Occurs text blank_line p start
  blank_gap zero q h start o = elim h [ ]
  blank_gap (suc p) q h start o = o

  -- One more block behind the body.
  extend-IsSound :
      (p : ℕ) (chunks : List ChunkDraft) (body : List AnchoredBlock) (b : AnchoredBlock)
      → Follows text p b
      → BodyIsSound text p chunks body
      → BodyIsSound text b.char_end chunks (body ++ b ∷ [])
  unfolding last_end
  extend-IsSound p chunks [] b f s = (
    ChunkSpans-weaken text 0 chunks p b.char_start (Occurs-bound f.gap).0 s,
    rw one_block-Occurs f.here,
    f.nonempty,
    refl,
  )
  extend-IsSound p chunks (a ∷ rest) b f (s, o, h, l) =
      let gap : Occurs text blank_line p b.char_start =
        blank_gap p a.char_start h b.char_start f.gap in
      let whole = Occurs-joined o (Occurs-joined gap f.here) in
      (
        s,
        rw body_text_snoc whole,
        omega (arith, f.nonempty, Occurs-bound f.gap),
        last_end_snoc a rest b,
      )

  on_paragraph-IsSound :
      (p : ℕ) (c : Chunker) (b : AnchoredBlock)
      → Follows text p b
      → IsSound text p c
      → IsSound text b.char_end (on_paragraph enc options c b)
  unfolding on_paragraph
  on_paragraph-IsSound p c b f s =
      elim (Bool-cases (ltb options.max_tokens (c.body_tokens + count_tokens enc b.text))) [
        | inl full ↦ rw full (
            extend-IsSound p (flush enc options c).chunks (flush enc options c).body b f
              (IsFlushed-IsSound p (flush enc options c) (flush-IsFlushed p c s)))
        | inr room ↦ rw room (extend-IsSound p c.chunks c.body b f s)
      ]

  chunk_block-IsSound :
      (p : ℕ) (c : Chunker) (b : AnchoredBlock)
      → Follows text p b
      → IsSound text p c
      → IsSound text b.char_end (chunk_block enc options c b)
  unfolding chunk_block
  chunk_block-IsSound p c b f s =
      if_elim (IsSound text b.char_end) b.heading _ _ (λ _. on_heading-IsSound p c b f s)
        (λ _.
          if_elim (IsSound text b.char_end) (is_blank_text b.text) _ _
            (λ blank. absurd (false≢true (sym f.visible ∙ blank)))
            (λ _.
              if_elim (IsSound text b.char_end) (ltb options.max_tokens (count_tokens enc b.text)) _
                _ (λ _. on_oversized-IsSound p c b f s) (λ _. on_paragraph-IsSound p c b f s)))

  chunk_blocks-IsSound :
      (p : ℕ) (c : Chunker) (bs : List AnchoredBlock) (q : ℕ)
      → Laid text p bs q
      → IsSound text p c
      → IsSound text q (chunk_blocks enc options c bs)
  unfolding chunk_blocks
  chunk_blocks-IsSound p c [] q l s = rw (← l) s
  chunk_blocks-IsSound p c (b ∷ bs) q (f, l) s =
      chunk_blocks-IsSound b.char_end (chunk_block enc options c b) bs q l
        (chunk_block-IsSound p c b f s)

-- The chunks of an assembled document: the offsets of each chunk cut exactly its own text, which
-- is not empty, out of the document's text, and the chunks follow the order of the document
-- without overlap.
pub chunk_document-ChunkSpans :
    (enc : Encoder) (options : ChunkOptions) (result : FormatParseResult)
    → ChunkSpans
        (assemble result).text
        0
        (chunk_document enc options (assemble result))
        (length (assemble result).text)
unfolding chunk_document
chunk_document-ChunkSpans enc options result =
    let start : Chunker = record {
      headings = [];
      body = [];
      body_tokens = 0;
      overlap = [];
      chunks = [];
    } in
    (flush-IsFlushed enc options (assemble result).text (length (assemble result).text)
      (chunk_blocks enc options start (assemble result).blocks)
      (chunk_blocks-IsSound enc options (assemble result).text 0 start (assemble result).blocks
        (length (assemble result).text) (assemble-Laid result) (omega arith))).1
