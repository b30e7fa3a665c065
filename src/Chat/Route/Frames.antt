-- ===== src/Chat/Route/Frames.antt =====
-- What a reader of the stream can rely on: how it ends, and what the last frame says.
use ai_support_agent_builder.Prelude.{
  ℕ, List, [], ◌∷◌, ◌++◌, none, some, Bool, true, false, if_elim, ◌≡◌, refl, inl, inr, ◌⊎◌,
}
use ai_support_agent_builder.Text.{codes}
use ai_support_agent_builder.Chat.Sources.Assemble.{AssembledSource}
use ai_support_agent_builder.Chat.Generation.{text_event, done_event, error_event}
use ai_support_agent_builder.Chat.Route.{
  Frame, ping, token, done, error, Conn, safe_write, end, Outside, beats, disconnects, times_out,
  on_outside, on_outsides, Turn, yields, throws, outside, on_exception, done_frame, finish_answer,
  answer_loop,
}

-- A `done` or an `error` closes a stream.
abbrev pub is_closing : Frame → Bool
is_closing ping = false
is_closing (token t) = false
is_closing (done grounded citations) = true
is_closing (error message retryable) = true

-- No frame closes the stream.
abbrev pub Open : List Frame → Type 0
Open [] = Unit
Open (f ∷ fs) = (is_closing f ≡ false) × Open fs

-- No frame closes the stream but the last.
abbrev pub ClosedAtEnd : List Frame → Type 0
ClosedAtEnd [] = Unit
ClosedAtEnd (f ∷ fs) = ((is_closing f ≡ false) ⊎ (fs ≡ [])) × ClosedAtEnd fs

-- An open stream has no closing frame; an ended one has at most one, the last.
abbrev pub WellClosed : Conn → Type 0
WellClosed conn = ((conn.closed ≡ true) ⊎ Open conn.frames) × ClosedAtEnd conn.frames

Open-ClosedAtEnd : (fs : List Frame) (f : Frame) → Open fs → ClosedAtEnd (fs ++ f ∷ [])
Open-ClosedAtEnd [] f o = (inr refl, tt)
Open-ClosedAtEnd (g ∷ fs) f (e, o) = (inl e, Open-ClosedAtEnd fs f o)

Open-snoc : (fs : List Frame) (f : Frame) → is_closing f ≡ false → Open fs → Open (fs ++ f ∷ [])
Open-snoc [] f h o = (h, tt)
Open-snoc (g ∷ fs) f h (e, o) = (e, Open-snoc fs f h o)

Open-of : (conn : Conn) → conn.closed ≡ false → WellClosed conn → Open conn.frames
Open-of conn e (inl c, w) = absurd (cc)
Open-of conn e (inr o, w) = o

-- A frame that does not close may be written at any time.
pub safe_write-WellClosed :
    (f : Frame) (conn : Conn)
    → is_closing f ≡ false
    → WellClosed conn
    → WellClosed (safe_write f conn)
unfolding safe_write
safe_write-WellClosed f conn h w =
    if_elim WellClosed conn.closed _ _ (λ e. w)
      (λ e. (
        inr (Open-snoc conn.frames f h (Open-of conn e w)),
        Open-ClosedAtEnd conn.frames f (Open-of conn e w),
      ))

-- Any frame may be written if the stream is ended behind it.
pub end-WellClosed :
    (f : Frame) (conn : Conn) → WellClosed conn → WellClosed (end (safe_write f conn))
unfolding safe_write end
end-WellClosed f conn w =
    if_elim (λ c. WellClosed (end c)) conn.closed _ _ (λ e. (inl refl, w.1))
      (λ e. (inl refl, Open-ClosedAtEnd conn.frames f (Open-of conn e w)))

on_outside-WellClosed :
    (o : Outside) (conn : Conn) → WellClosed conn → WellClosed (on_outside o conn)
unfolding on_outside end
on_outside-WellClosed beats conn w = safe_write-WellClosed ping conn refl w
on_outside-WellClosed disconnects conn w = (inl refl, w.1)
on_outside-WellClosed times_out conn w =
    if_elim WellClosed conn.closed _ _ (λ e. w)
      (λ e. end-WellClosed (error (codes "timeout") none) conn w)

pub on_outsides-WellClosed :
    (os : List Outside) (conn : Conn) → WellClosed conn → WellClosed (on_outsides os conn)
unfolding on_outsides
on_outsides-WellClosed [] conn w = w
on_outsides-WellClosed (o ∷ os) conn w =
    on_outsides-WellClosed os _ (on_outside-WellClosed o conn w)

pub on_exception-WellClosed : (conn : Conn) → WellClosed conn → WellClosed (on_exception conn)
unfolding on_exception
on_exception-WellClosed conn w =
    if_elim WellClosed conn.closed _ _ (λ e. w)
      (λ e. end-WellClosed (error (codes "internal error") none) conn w)

pub answer_loop-WellClosed :
    (sources : List AssembledSource) (answer : List ℕ) (conn : Conn) (turns : List Turn)
    → WellClosed conn
    → WellClosed (answer_loop sources answer conn turns)
unfolding answer_loop finish_answer
answer_loop-WellClosed sources answer conn [] w =
    if_elim WellClosed conn.closed _ _ (λ e. w)
      (λ e. end-WellClosed (done_frame sources answer) conn w)
answer_loop-WellClosed sources answer conn (outside o ∷ turns) w =
    answer_loop-WellClosed sources answer _ turns (on_outside-WellClosed o conn w)
answer_loop-WellClosed sources answer conn (throws ∷ turns) w = on_exception-WellClosed conn w
answer_loop-WellClosed sources answer conn (yields (text_event t) ∷ turns) w =
    if_elim WellClosed conn.closed _ _ (λ e. w)
      (λ e.
        answer_loop-WellClosed sources (answer ++ t) _ turns
          (safe_write-WellClosed (token t) conn refl w))
answer_loop-WellClosed sources answer conn (yields (error_event m retryable) ∷ turns) w =
    if_elim WellClosed conn.closed _ _ (λ e. w)
      (λ e. end-WellClosed (error (codes "generation failed") (some retryable)) conn w)
answer_loop-WellClosed sources answer conn (yields (done_event usage stop) ∷ turns) w =
    if_elim WellClosed conn.closed _ _ (λ e. w)
      (λ e. answer_loop-WellClosed sources answer conn turns w)

pub on_exception-closed : (conn : Conn) → (on_exception conn).closed ≡ true
unfolding on_exception end
on_exception-closed conn = if_elim (λ c. c.closed ≡ true) conn.closed conn _ (λ e. e) (λ e. refl)

pub answer_loop-closed :
    (sources : List AssembledSource) (answer : List ℕ) (conn : Conn) (turns : List Turn)
    → (answer_loop sources answer conn turns).closed ≡ true
unfolding answer_loop finish_answer end
answer_loop-closed sources answer conn [] =
    if_elim (λ c. c.closed ≡ true) conn.closed conn _ (λ e. e) (λ e. refl)
answer_loop-closed sources answer conn (outside o ∷ turns) =
    answer_loop-closed sources answer _ turns
answer_loop-closed sources answer conn (throws ∷ turns) = on_exception-closed conn
answer_loop-closed sources answer conn (yields (text_event t) ∷ turns) =
    if_elim (λ c. c.closed ≡ true) conn.closed conn _ (λ e. e)
      (λ e. answer_loop-closed sources (answer ++ t) _ turns)
answer_loop-closed sources answer conn (yields (error_event m retryable) ∷ turns) =
    if_elim (λ c. c.closed ≡ true) conn.closed conn _ (λ e. e) (λ e. refl)
answer_loop-closed sources answer conn (yields (done_event usage stop) ∷ turns) =
    if_elim (λ c. c.closed ≡ true) conn.closed conn _ (λ e. e)
      (λ e. answer_loop-closed sources answer conn turns)

-- The stream keeps to its form, and it is ended.
abbrev pub Ended : Conn → Type 0
Ended conn = (conn.closed ≡ true) × WellClosed conn
