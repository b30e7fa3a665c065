-- ===== src/Admin/Sse/RoundTrip.antt =====
-- A frame that the server writes is read back.
use ai_support_agent_builder.Prelude.{
  ℕ, List, [], ◌∷◌, ◌++◌, append_assoc, append-nil, some, true, false, ◌==◌, ◌≡◌, refl, ap, ◌∙◌,
  arith,
}
use ai_support_agent_builder.Text.{codes, starts_with}
use ai_support_agent_builder.Parsing.Assemble.Anchors.{All}
use ai_support_agent_builder.Admin.Sse.{
  newline, cons_left, break_at, frames_of, frame_of, field_from, line_of, is_line_terminator,
  with_frames, parse_sse_frames, sse, ping, or_default,
}
use ai_support_agent_builder.Admin.Sse.Chunks.{parse_sse_frames-some}

-- The text has no line terminator.
abbrev pub OneLine : List ℕ → Type 0
OneLine s = All (λ c. is_line_terminator c ≡ false) s

not_newline : (c : ℕ) → is_line_terminator c ≡ false → (c == newline) ≡ false
unfolding is_line_terminator
not_newline c h = ground arith

-- A line is passed over by the search for a blank line.
break_at-line :
    (s t raw behind : List ℕ)
    → OneLine s
    → break_at t ≡ some (raw, behind)
    → break_at (s ++ t) ≡ some (s ++ raw, behind)
unfolding break_at
break_at-line [] t raw behind a h = h
break_at-line (c ∷ []) [] raw behind a h = cc
break_at-line (c ∷ []) (d ∷ t) raw behind (a, b) h = rw (not_newline c a, h) refl
break_at-line (c ∷ d ∷ s) t raw behind (a, b) h =
    rw (not_newline c a, break_at-line (d ∷ s) t raw behind b h) refl

line_of-line : (s t : List ℕ) → OneLine s → line_of (s ++ newline ∷ t) ≡ s
unfolding line_of is_line_terminator
line_of-line [] t a = refl
line_of-line (c ∷ s) t (a, b) = rw (a, line_of-line s t b) refl

line_of-last : (s : List ℕ) → OneLine s → line_of s ≡ s
unfolding line_of
line_of-last [] a = refl
line_of-last (c ∷ s) (a, b) = rw (a, line_of-last s b) refl

-- The search for a field goes on behind a line in which it is not.
field_from-line :
    (name s t : List ℕ)
    → OneLine s
    → field_from name false (s ++ newline ∷ t) ≡ field_from name true t
unfolding field_from
field_from-line name [] t a = refl
field_from-line name (c ∷ s) t (a, b) = rw (not_newline c a, field_from-line name s t b) refl

-- What stands in front of the blank line.
abbrev body : List ℕ → List ℕ → List ℕ
body event text = codes "event: " ++ (event ++ (newline ∷ (codes "data: " ++ text)))

field_from-event :
    (event text : List ℕ)
    → OneLine event
    → field_from (codes "event: ") true (body event text) ≡ some event
unfolding field_from starts_with
field_from-event event text a = ap some (line_of-line event (codes "data: " ++ text) a)

field_from-data :
    (event text : List ℕ)
    → OneLine event
    → OneLine text
    → field_from (codes "data: ") true (body event text) ≡ some text
unfolding field_from starts_with
field_from-data event text a b =
    field_from-line (codes "data: ") event (codes "data: " ++ text) a
    ∙ ap some (line_of-last text b)

frames_of-body :
    (event text : List ℕ)
    → OneLine event
    → OneLine text
    → frames_of (body event text) ≡ record { event = event; content = text } ∷ []
unfolding frames_of frame_of starts_with
frames_of-body event text a b =
    ap
      (λ e.
        record {
          event = or_default (codes "message") e;
          content = or_default [] (field_from (codes "data: ") true (body event text));
        }
        ∷ [])
      (field_from-event event text a)
    ∙ ap (λ d. record { event = event; content = or_default [] d } ∷ [])
        (field_from-data event text a b)

OneLine-append : (s t : List ℕ) → OneLine s → OneLine t → OneLine (s ++ t)
OneLine-append [] t a b = b
OneLine-append (c ∷ s) t (e, a) b = (e, OneLine-append s t a b)

OneLine-event : OneLine (codes "event: ")
unfolding is_line_terminator
OneLine-event = (refl, (refl, (refl, (refl, (refl, (refl, (refl, tt)))))))

OneLine-data : OneLine (codes "data: ")
unfolding is_line_terminator
OneLine-data = (refl, (refl, (refl, (refl, (refl, (refl, tt))))))

break_at-data :
    (text more : List ℕ)
    → OneLine text
    → break_at (newline ∷ ((codes "data: " ++ text) ++ (newline ∷ newline ∷ more)))
      ≡ some (newline ∷ (codes "data: " ++ text) ++ [], more)
unfolding break_at
break_at-data text more b = ap (cons_left newline) (
    break_at-line (codes "data: " ++ text) (newline ∷ newline ∷ more) [] more
      (OneLine-append (codes "data: ") text OneLine-data b) refl)

break_at-sse :
    (event text more : List ℕ)
    → OneLine event
    → OneLine text
    → break_at (sse event text ++ more) ≡ some (body event text, more)
unfolding sse
break_at-sse event text more a b =
    let line = codes "event: " ++ event in
    let second = newline ∷ ((codes "data: " ++ text) ++ (newline ∷ newline ∷ more)) in
    ap break_at (simp append_assoc)
    ∙ break_at-line line second (newline ∷ (codes "data: " ++ text) ++ []) more
        (OneLine-append (codes "event: ") event OneLine-event a) (break_at-data text more b)
    ∙ ap (λ s. some (s, more)) (simp (append_assoc, append-nil))

-- What the server writes for an event is read back as that event with its text, and the reader goes
-- on with what follows, where the name and the text have no line terminator: neither a newline nor
-- U+000D, U+2028 or U+2029.
pub parse_sse_frames-sse :
    (event text more : List ℕ)
    → OneLine event
    → OneLine text
    → parse_sse_frames (sse event text ++ more)
      ≡ with_frames (record { event = event; content = text } ∷ []) (parse_sse_frames more)
parse_sse_frames-sse event text more a b =
    parse_sse_frames-some (sse event text ++ more) (body event text) more
      (break_at-sse event text more a b)
    ∙ ap (λ fs. with_frames fs (parse_sse_frames more)) (frames_of-body event text a b)

-- A heartbeat is passed over.
pub parse_sse_frames-ping :
    (more : List ℕ) → parse_sse_frames (ping ++ more) ≡ parse_sse_frames more
unfolding break_at frames_of starts_with
parse_sse_frames-ping more = parse_sse_frames-some (ping ++ more) (codes ": ping") more refl
