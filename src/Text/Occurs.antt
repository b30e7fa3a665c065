-- ===== src/Text/Occurs.antt =====
-- A text that stands in a larger text between two offsets, and how such places are put together.
use ai_support_agent_builder.Prelude.{
  ℕ, ◌+◌, ◌-◌, ◌≤◌, List, [], ◌++◌, ◌≡◌, refl, sym, ap, ◌∙◌, arith, length, take, drop, slice,
  length-append, length-take, length-slice, slice-append, take-length_append, drop-length_append,
  take-append-slice, append_assoc, append-nil,
}

module _ {ℓ} {A : Type ℓ} where
  pub record Occurs (text part : List A) (start end : ℕ) : Type ℓ where
    pub before : List A
    pub after : List A
    pub parts : text ≡ before ++ (part ++ after)
    pub starts : length before ≡ start
    pub ends : start + length part ≡ end

module _ {ℓ} {A : Type ℓ} where
  -- The offsets cut out the part.
  pub slice_of_Occurs :
      {text part : List A} {start end : ℕ}
      → Occurs text part start end
      → slice text start end ≡ part
  slice_of_Occurs {text} {part} {start} {end} o =
      rw (o.parts, ← o.ends, ← o.starts) (slice-append o.before part o.after)

  pub Occurs-bound :
      {text part : List A} {start end : ℕ}
      → Occurs text part start end
      → (start ≤ end) × (end ≤ length text)
  Occurs-bound {text} {part} {start} {end} o = (
    omega (arith, o.ends),
    omega (
      arith,
      ap length o.parts,
      length-append o.before (part ++ o.after),
      length-append part o.after,
      o.starts,
      o.ends,
    ),
  )

  -- A longer text has the same parts.
  pub Occurs-append :
      {text part : List A} {start end : ℕ} (more : List A)
      → Occurs text part start end
      → Occurs (text ++ more) part start end
  Occurs-append {text} {part} more o = record {
    before = o.before;
    after = o.after ++ more;
    parts = rw o.parts (simp append_assoc);
    starts = o.starts;
    ends = o.ends;
  }

  -- The part that is appended.
  pub Occurs-last :
      (text part : List A) → Occurs (text ++ part) part (length text) (length text + length part)
  Occurs-last text part = record {
    before = text;
    after = [];
    parts = ap (λ t. text ++ t) (sym (append-nil part));
    starts = refl;
    ends = refl;
  }

  append_inj_left :
      (xs ys us vs : List A) → xs ++ ys ≡ us ++ vs → length xs ≡ length us → (xs ≡ us) × (ys ≡ vs)
  append_inj_left xs ys us vs e h = (
    sym (take-length_append xs ys)
        ∙ ap (take (length xs)) e
        ∙ ap (λ (n : ℕ). take n (us ++ vs)) h
        ∙ take-length_append us vs,
    sym (drop-length_append xs ys)
        ∙ ap (drop (length xs)) e
        ∙ ap (λ (n : ℕ). drop n (us ++ vs)) h
        ∙ drop-length_append us vs,
  )

  -- Two parts side by side.
  pub Occurs-joined :
      {text s t : List A} {a b c : ℕ}
      → Occurs text s a b
      → Occurs text t b c
      → Occurs text (s ++ t) a c
  Occurs-joined {text} {s} {t} {a} {b} {c} o p = record {
    before = o.before;
    after = p.after;
    parts =
        o.parts
        ∙ ap (λ u. o.before ++ (s ++ u))
            (append_inj_left (o.before ++ s) o.after p.before (t ++ p.after)
              (append_assoc o.before s o.after ∙ sym o.parts ∙ p.parts)
              (omega (arith, length-append o.before s, o.starts, o.ends, p.starts))).1
        ∙ ap (λ u. o.before ++ u) (sym (append_assoc s t p.after));
    starts = o.starts;
    ends = omega (arith, length-append s t, o.ends, p.ends);
  }

  -- A part of a part.
  pub Occurs-within :
      {text s t : List A} {a b c d : ℕ}
      → Occurs text s a b
      → Occurs s t c d
      → Occurs text t (a + c) (a + d)
  Occurs-within {text} {s} {t} {a} {b} {c} {d} o p = record {
    before = o.before ++ p.before;
    after = p.after ++ o.after;
    parts = o.parts ∙ ap (λ u. o.before ++ (u ++ o.after)) p.parts ∙ simp append_assoc;
    starts = omega (arith, length-append o.before p.before, o.starts, p.starts);
    ends = omega (arith, p.ends);
  }

  pub Occurs-slice :
      (text : List A) (start end : ℕ)
      → start ≤ end
      → end ≤ length text
      → Occurs text (slice text start end) start end
  Occurs-slice text start end h k = record {
    before = take start text;
    after = drop (end - start) (drop start text);
    parts = sym (take-append-slice text start end);
    starts = omega (arith, length-take start text);
    ends = omega (arith, length-slice text start end);
  }
