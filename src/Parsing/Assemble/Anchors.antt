-- ===== src/Parsing/Assemble/Anchors.antt =====
-- The blocks of an assembled document lie one behind the other in its text, each at its offsets
-- and a blank line apart.
use ai_support_agent_builder.Prelude.{
  ℕ, zero, suc, ◌<◌, List, [], ◌∷◌, ◌++◌, ◌≡◌, refl, ◌∙◌, false, arith, length, length-append,
  slice, append_assoc, Bool-cases, inl, inr,
}
use ai_support_agent_builder.Text.{is_empty, is_blank_text, trim}
use ai_support_agent_builder.Text.Blank.{is_blank_text-trim}
use ai_support_agent_builder.Text.Occurs.{Occurs, Occurs-append, Occurs-last, slice_of_Occurs}
use ai_support_agent_builder.Parsing.Types.{RawBlock, AnchoredBlock, FormatParseResult}
use ai_support_agent_builder.Parsing.Assemble.{
  Assembly, blank_line, separated, anchor, append_block, append_blocks, assemble,
}

-- What stands between two blocks, the first of which ends at `p`; nothing before the first block.
abbrev pub separator : ℕ → List ℕ
separator zero = []
separator (suc p) = blank_line

-- The block behind the offset `p`.
pub record Follows (text : List ℕ) (p : ℕ) (b : AnchoredBlock) : Type 0 where
  pub gap : Occurs text (separator p) p b.char_start
  pub here : Occurs text b.text b.char_start b.char_end
  pub nonempty : b.char_start < b.char_end
  pub visible : is_blank_text b.text ≡ false

-- The blocks fill the text from `p` to `q`.
abbrev pub Laid : List ℕ → ℕ → List AnchoredBlock → ℕ → Type 0
Laid text p [] q = p ≡ q
Laid text p (b ∷ bs) q = Follows text p b × Laid text b.char_end bs q

-- What holds of every block of a laid list.
pub record IsCited (text : List ℕ) (b : AnchoredBlock) : Type 0 where
  pub cut : slice text b.char_start b.char_end ≡ b.text
  pub nonempty : b.char_start < b.char_end

abbrev pub All {ℓ κ} : {A : Type ℓ} → (A → Type κ) → List A → Type κ
All P [] = Unit
All P (x ∷ xs) = P x × All P xs

Follows-append :
    {text : List ℕ} {p : ℕ} (more : List ℕ) (b : AnchoredBlock)
    → Follows text p b
    → Follows (text ++ more) p b
Follows-append more b f = record {
  gap = Occurs-append more f.gap;
  here = Occurs-append more f.here;
  nonempty = f.nonempty;
  visible = f.visible;
}

Laid-append :
    (text more : List ℕ) (p : ℕ) (bs : List AnchoredBlock) (q : ℕ)
    → Laid text p bs q
    → Laid (text ++ more) p bs q
Laid-append text more p [] q h = h
Laid-append text more p (b ∷ bs) q (f, h) =
    (Follows-append more b f, Laid-append text more b.char_end bs q h)

Laid-snoc :
    (text : List ℕ) (p : ℕ) (bs : List AnchoredBlock) (q : ℕ) (b : AnchoredBlock)
    → Laid text p bs q
    → Follows text q b
    → Laid text p (bs ++ b ∷ []) b.char_end
Laid-snoc text p [] q b h f = (rw h f, refl)
Laid-snoc text p (c ∷ bs) q b (g, h) f = (g, Laid-snoc text c.char_end bs q b h f)

separated-eq : (text : List ℕ) → separated text ≡ text ++ separator (length text)
unfolding separated
separated-eq [] = refl
separated-eq (c ∷ text) = refl

abbrev IsGood : Assembly → Type 0
IsGood a = Laid a.text 0 a.blocks (length a.text)

nonempty_length : (s : List ℕ) → is_empty s ≡ false → 0 < length s
nonempty_length [] h = absurd (cc)
nonempty_length (c ∷ s) h = omega arith

anchor-Follows :
    (block : RawBlock) (text trimmed : List ℕ)
    → is_empty trimmed ≡ false
    → is_blank_text trimmed ≡ false
    → Follows
        (separated text ++ trimmed)
        (length text)
        (anchor block trimmed (length (separated text)))
unfolding anchor
anchor-Follows block text trimmed h v = rw separated-eq (record {
  gap = rw length-append (Occurs-append trimmed (Occurs-last text (separator (length text))));
  here = Occurs-last (text ++ separator (length text)) trimmed;
  nonempty = omega (arith, nonempty_length trimmed h);
  visible = v;
})

grown :
    (a : Assembly) (block : RawBlock) (trimmed : List ℕ)
    → is_empty trimmed ≡ false
    → is_blank_text trimmed ≡ false
    → IsGood a
    → Laid
        (separated a.text ++ trimmed)
        0
        (a.blocks ++ anchor block trimmed (length (separated a.text)) ∷ [])
        (length (separated a.text ++ trimmed))
unfolding anchor
grown a block trimmed full v h =
    let laid =
      Laid-snoc (separated a.text ++ trimmed) 0 a.blocks (length a.text)
        (anchor block trimmed (length (separated a.text)))
        (rw (separated-eq, append_assoc)
          (Laid-append a.text (separator (length a.text) ++ trimmed) 0 a.blocks (length a.text) h))
        (anchor-Follows block a.text trimmed full v) in
    rw (length-append (separated a.text) trimmed) laid

append_block-IsGood : (a : Assembly) (block : RawBlock) → IsGood a → IsGood (append_block a block)
unfolding append_block
append_block-IsGood a block h = elim (Bool-cases (is_empty (trim block.text))) [
  | inl blank ↦ rw blank h
  | inr full ↦
      rw full (grown a block (trim block.text) full (is_blank_text-trim block.text ∙ full) h)
]

append_blocks-IsGood :
    (a : Assembly) (blocks : List RawBlock) → IsGood a → IsGood (append_blocks a blocks)
unfolding append_blocks
append_blocks-IsGood a [] h = h
append_blocks-IsGood a (block ∷ rest) h =
    append_blocks-IsGood (append_block a block) rest (append_block-IsGood a block h)

-- The blocks of an assembled document fill its text in their order, each at its offsets, with
-- exactly a blank line between two of them and nothing before the first or behind the last.
pub assemble-Laid :
    (result : FormatParseResult)
    → Laid (assemble result).text 0 (assemble result).blocks (length (assemble result).text)
unfolding assemble
assemble-Laid result = append_blocks-IsGood (record { text = []; blocks = [] }) result.blocks refl

pub Laid-IsCited :
    (text : List ℕ) (p : ℕ) (bs : List AnchoredBlock) (q : ℕ)
    → Laid text p bs q
    → All (IsCited text) bs
Laid-IsCited text p [] q h = tt
Laid-IsCited text p (b ∷ bs) q (f, h) = (
  record { cut = slice_of_Occurs f.here; nonempty = f.nonempty },
  Laid-IsCited text b.char_end bs q h,
)

-- Whatever a format parser returns, the offsets of each assembled block cut exactly the block's
-- own text, which is not empty, out of the document's text.
pub assemble-IsCited :
    (result : FormatParseResult) → All (IsCited (assemble result).text) (assemble result).blocks
assemble-IsCited result =
    Laid-IsCited (assemble result).text 0 (assemble result).blocks (length (assemble result).text)
      (assemble-Laid result)
