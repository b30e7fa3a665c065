-- ===== src/Admin/Sse/Chunks.antt =====
-- However the stream is cut into chunks, the reader gets the same frames.
use ai_support_agent_builder.Prelude.{
  ℕ, zero, suc, ◌≤◌, List, [], ◌∷◌, ◌++◌, append_assoc, append-nil, Option, none, some, ◌&&◌, ◌==◌,
  length, ◌≡◌, refl, sym, ap, ◌∙◌, arith, Bool-cases, some_inj, Option-cases, inl, inr,
}
use ai_support_agent_builder.Admin.Sse.{
  SseFrame, Parsed, newline, cons_left, break_at, frames_of, with_frames, read_stream, parse_loop,
  parse_sse_frames,
}

cons_left-some {ℓ} :
    {B : Type ℓ} (c : ℕ) (o : Option (List ℕ × B)) {s : List ℕ} {b : B}
    → cons_left c o ≡ some (s, b)
    → (t : List ℕ) × (o ≡ some (t, b)) × (s ≡ c ∷ t)
cons_left-some c none h = cc
cons_left-some c (some (t, b')) h = (t, cc, cc)

pair_inj {ℓ κ} :
    {A : Type ℓ} {B : Type κ} {a a' : A} {b b' : B}
    → ◌≡◌ {A = A × B} (a, b) (a', b')
    → (a ≡ a') × (b ≡ b')
pair_inj h = (ap (λ p. p.0) h, ap (λ p. p.1) h)

-- A break stays where it is when more text comes.
break_at-append :
    (a b raw behind : List ℕ)
    → break_at a ≡ some (raw, behind)
    → break_at (a ++ b) ≡ some (raw, behind ++ b)
unfolding break_at
break_at-append [] b raw behind h = cc
break_at-append (c ∷ []) b raw behind h = cc
break_at-append (c ∷ d ∷ s) b raw behind h = elim (Bool-cases (c == newline && d == newline)) [
  | inl e ↦ let k = rw e at h in let (q, r) = pair_inj (some_inj k) in rw (e, ← q, ← r) refl
  | inr e ↦
      let k = rw e at h in
      let (t, o, q) = cons_left-some c (break_at (d ∷ s)) k in
      rw (e, break_at-append (d ∷ s) b t behind o, q) refl
]

break_at-shorter :
    (a raw behind : List ℕ) → break_at a ≡ some (raw, behind) → suc (length behind) ≤ length a
unfolding break_at
break_at-shorter [] raw behind h = cc
break_at-shorter (c ∷ []) raw behind h = cc
break_at-shorter (c ∷ d ∷ s) raw behind h = elim (Bool-cases (c == newline && d == newline)) [
  | inl e ↦ let k = rw e at h in let (q, r) = pair_inj (some_inj k) in omega (arith, ap length r)
  | inr e ↦
      let k = rw e at h in
      let (t, o, q) = cons_left-some c (break_at (d ∷ s)) k in
      omega (arith, break_at-shorter (d ∷ s) t behind o)
]

parse_loop-none :
    (rounds : ℕ) (a : List ℕ)
    → break_at a ≡ none
    → parse_loop rounds a ≡ record { frames = []; rest = a }
unfolding parse_loop
parse_loop-none zero a h = refl
parse_loop-none (suc rounds) a h = rw (h, parse_loop) refl

-- Any number of rounds that is not below the length gives the same.
parse_loop-enough :
    (rounds more : ℕ) (a : List ℕ)
    → length a ≤ rounds
    → length a ≤ more
    → parse_loop rounds a ≡ parse_loop more a
unfolding parse_loop break_at
parse_loop-enough rounds more [] h k =
    parse_loop-none rounds [] refl ∙ sym (parse_loop-none more [] refl)
parse_loop-enough zero more (c ∷ a) h k = absurd (omega arith)
parse_loop-enough (suc rounds) zero (c ∷ a) h k = absurd (omega arith)
parse_loop-enough (suc rounds) (suc more) (c ∷ a) h k = elim (Option-cases (break_at (c ∷ a))) [
  | inl e ↦ rw (e, parse_loop) refl
  | inr ((raw, behind), e) ↦
      let shorter = break_at-shorter (c ∷ a) raw behind e in
      rw (e, parse_loop)
        (ap (with_frames (frames_of raw))
          (parse_loop-enough rounds more behind (omega arith) (omega arith)))
]

pub parse_sse_frames-none :
    (a : List ℕ) → break_at a ≡ none → parse_sse_frames a ≡ record { frames = []; rest = a }
unfolding parse_sse_frames
parse_sse_frames-none a h = parse_loop-none (length a) a h

pub parse_sse_frames-some :
    (a raw behind : List ℕ)
    → break_at a ≡ some (raw, behind)
    → parse_sse_frames a ≡ with_frames (frames_of raw) (parse_sse_frames behind)
unfolding parse_sse_frames parse_loop
parse_sse_frames-some a raw behind h =
    let shorter = break_at-shorter a raw behind h in
    parse_loop-enough (length a) (suc (length a)) a (omega arith) (omega arith)
    ∙ rw (h, parse_loop)
        (ap (with_frames (frames_of raw))
          (parse_loop-enough (length a) (length behind) behind (omega arith) (omega arith)))

-- What was found before, and what the rest gives with the next chunk.
abbrev pub resume : Parsed → List ℕ → Parsed
resume p chunk = with_frames p.frames (parse_sse_frames (p.rest ++ chunk))

resume-with_frames :
    (fs : List SseFrame) (p : Parsed) (b : List ℕ)
    → with_frames fs (resume p b) ≡ resume (with_frames fs p) b
resume-with_frames fs p b =
    ap (λ l. record { frames = l; rest = (parse_sse_frames (p.rest ++ b)).rest })
      (sym (append_assoc fs p.frames (parse_sse_frames (p.rest ++ b)).frames))

-- The rest holds no further frame.
parse_sse_frames-rest :
    (rounds : ℕ) (a : List ℕ) → length a ≤ rounds → break_at (parse_sse_frames a).rest ≡ none
parse_sse_frames-rest zero a h = elim (Option-cases (break_at a)) [
  | inl e ↦ rw (parse_sse_frames-none a e) e
  | inr ((raw, behind), e) ↦ absurd (omega (arith, break_at-shorter a raw behind e))
]
parse_sse_frames-rest (suc rounds) a h = elim (Option-cases (break_at a)) [
  | inl e ↦ rw (parse_sse_frames-none a e) e
  | inr ((raw, behind), e) ↦
      let shorter = break_at-shorter a raw behind e in
      rw (parse_sse_frames-some a raw behind e) (parse_sse_frames-rest rounds behind (omega arith))
]

-- A chunk may come at any place.
pub parse_sse_frames-resume :
    (rounds : ℕ) (a b : List ℕ)
    → length a ≤ rounds
    → parse_sse_frames (a ++ b) ≡ resume (parse_sse_frames a) b
parse_sse_frames-resume zero a b h = elim (Option-cases (break_at a)) [
  | inl e ↦ rw (parse_sse_frames-none a e) refl
  | inr ((raw, behind), e) ↦ absurd (omega (arith, break_at-shorter a raw behind e))
]
parse_sse_frames-resume (suc rounds) a b h = elim (Option-cases (break_at a)) [
  | inl e ↦ rw (parse_sse_frames-none a e) refl
  | inr ((raw, behind), e) ↦
      let shorter = break_at-shorter a raw behind e in
      parse_sse_frames-some (a ++ b) raw (behind ++ b) (break_at-append a b raw behind e)
      ∙ ap (with_frames (frames_of raw)) (parse_sse_frames-resume rounds behind b (omega arith))
      ∙ resume-with_frames (frames_of raw) (parse_sse_frames behind) b
      ∙ ap (λ p. resume p b) (sym (parse_sse_frames-some a raw behind e))
]

abbrev pub concat : List (List ℕ) → List ℕ
concat [] = []
concat (s ∷ ss) = s ++ concat ss

read_stream-from :
    (buffer : List ℕ) (chunks : List (List ℕ))
    → break_at buffer ≡ none
    → read_stream buffer chunks ≡ parse_sse_frames (buffer ++ concat chunks)
unfolding read_stream
read_stream-from buffer [] e = rw append-nil (sym (parse_sse_frames-none buffer e))
read_stream-from buffer (chunk ∷ chunks) e =
    let whole = buffer ++ chunk in
    let p = parse_sse_frames whole in
    ap (with_frames p.frames)
      (read_stream-from p.rest chunks (parse_sse_frames-rest (length whole) whole (omega arith)))
    ∙ sym (parse_sse_frames-resume (length whole) whole (concat chunks) (omega arith))
    ∙ ap parse_sse_frames (append_assoc buffer chunk (concat chunks))

-- However the text of a stream is cut into chunks, the reader ends with the frames and the rest of
-- the whole text, as if it had come at once.
pub read_stream-concat :
    (chunks : List (List ℕ)) → read_stream [] chunks ≡ parse_sse_frames (concat chunks)
unfolding break_at
read_stream-concat chunks = read_stream-from [] chunks refl
