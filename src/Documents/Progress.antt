-- ===== src/Documents/Progress.antt =====
-- The ticks of `GET /documents/:id/events` in api/src/routes/documents.ts.
use ai_support_agent_builder.Prelude.{
  ℕ, suc, ◌%◌, List, [], ◌∷◌, ◌++◌, Option, none, some, Bool, true, false, not, if◌then◌else◌,
  if_elim, ◌==◌, ◌≡◌, refl, sym, subst, append_assoc, ◌⊎◌, inl, inr, Bool-cases,
}
use ai_support_agent_builder.Ingest.World.{
  DocumentStatus, queued, uploaded, parsing, embedding, ready, failed_status,
}
use ai_support_agent_builder.Documents.Status.{sanitize_document_error, is_terminal_status}

-- What a tick reads of the document, with the number of its chunks.
pub record Snap : Type 0 where
  pub status : DocumentStatus
  pub page_count : Option ℕ
  pub warnings : List (List ℕ)
  pub error : Option (List ℕ)
  pub chunk_count : ℕ

pub record StatusData : Type 0 where
  pub status : DocumentStatus
  pub page_count : Option ℕ
  pub chunk_count : ℕ
  pub warnings : List (List ℕ)
  pub error : Option (List ℕ)

pub data ProgressFrame : Type 0 where
  status_frame : StatusData → ProgressFrame
  done_frame gone_frame timeout_frame keep_alive : ProgressFrame

-- The variables of the handler. `last_status` is `none` where the source has the empty text.
pub record Progress : Type 0 where
  pub closed : Bool
  pub last_status : Option DocumentStatus
  pub ticks_since_write : ℕ
  pub frames : List ProgressFrame

abbrev pub started : Progress
started = record { closed = false; last_status = none; ticks_since_write = 0; frames = [] }

unfoldable pub safe_write : ProgressFrame → Progress → Progress
safe_write frame p = if p.closed then p else record p { frames = p.frames ++ frame ∷ [] }

unfoldable pub end : Progress → Progress
end p = record p { closed = true }

abbrev pub code : DocumentStatus → ℕ
code queued = 0
code uploaded = 1
code parsing = 2
code embedding = 3
code ready = 4
code failed_status = 5

-- `snap.doc.status !== lastStatus`, negated.
abbrev pub is_last : Option DocumentStatus → DocumentStatus → Bool
is_last none status = false
is_last (some last) status = code last == code status

abbrev pub data_of : Snap → StatusData
data_of snap = record {
  status = snap.status;
  page_count = snap.page_count;
  chunk_count = snap.chunk_count;
  warnings = snap.warnings;
  error = sanitize_document_error snap.error snap.status;
}

-- The document is there: a new status is written, and a last one ends the stream.
unfoldable pub on_snap : Snap → Progress → Progress
unfolding safe_write end sanitize_document_error is_terminal_status
on_snap snap p =
    let noted = record p { last_status = some snap.status; ticks_since_write = 0 } in
    let written = safe_write (status_frame (data_of snap)) noted in
    let waited = record p { ticks_since_write = suc p.ticks_since_write } in
    if not (is_last p.last_status snap.status)
    then (if is_terminal_status snap.status then end (safe_write done_frame written) else written)
    else if suc p.ticks_since_write % 15 == 0
    then safe_write keep_alive waited
    else waited

-- What happens to the open stream, in order. Ticks do not overlap: `ticking` keeps a second one
-- from starting, so each is one step here; the client may be gone while it reads.
pub data Happens : Type 0 where
  tick_found : Snap → Happens
  tick_missing : Happens
  tick_fails : Happens
  timer : Happens
  closes : Happens

unfoldable pub on_happens : Happens → Progress → Progress
unfolding on_snap safe_write end
on_happens (tick_found snap) p = if p.closed then p else on_snap snap p
on_happens tick_missing p = if p.closed then p else end (safe_write gone_frame p)
on_happens tick_fails p = if p.closed then p else end p
on_happens timer p = if p.closed then p else end (safe_write timeout_frame p)
on_happens closes p = end p

unfoldable pub run_progress : Progress → List Happens → Progress
unfolding on_happens
run_progress p [] = p
run_progress p (h ∷ hs) = run_progress (on_happens h p) hs

abbrev pub frame_closes : ProgressFrame → Bool
frame_closes (status_frame d) = false
frame_closes keep_alive = false
frame_closes done_frame = true
frame_closes gone_frame = true
frame_closes timeout_frame = true

-- The frame that says a last status was written.
abbrev pub shows_terminal : ProgressFrame → Bool
shows_terminal (status_frame d) = is_terminal_status d.status
shows_terminal keep_alive = false
shows_terminal done_frame = false
shows_terminal gone_frame = false
shows_terminal timeout_frame = false

-- A last status is followed by `done`, which nothing follows; nothing follows the other closing
-- frames either.
abbrev pub Ordered : List ProgressFrame → Type 0
Ordered [] = Unit
Ordered (f ∷ fs) =
    ((shows_terminal f ≡ false) ⊎ (fs ≡ done_frame ∷ []))
    × ((frame_closes f ≡ false) ⊎ (fs ≡ []))
    × Ordered fs

abbrev pub Plain : List ProgressFrame → Type 0
Plain [] = Unit
Plain (f ∷ fs) = (shows_terminal f ≡ false) × (frame_closes f ≡ false) × Plain fs

abbrev pub InOrder : Progress → Type 0
InOrder p = ((p.closed ≡ true) ⊎ Plain p.frames) × Ordered p.frames

Plain-append :
    (fs : List ProgressFrame) (gs : List ProgressFrame) → Plain fs → Ordered gs → Ordered (fs ++ gs)
Plain-append [] gs p o = o
Plain-append (f ∷ fs) gs (a, b, p) o = (inl a, inl b, Plain-append fs gs p o)

Plain-snoc :
    (fs : List ProgressFrame) (f : ProgressFrame)
    → shows_terminal f ≡ false
    → frame_closes f ≡ false
    → Plain fs
    → Plain (fs ++ f ∷ [])
Plain-snoc [] f a b p = (a, b, tt)
Plain-snoc (g ∷ fs) f a b (c, d, p) = (c, d, Plain-snoc fs f a b p)

Plain-of : (p : Progress) → p.closed ≡ false → InOrder p → Plain p.frames
Plain-of p e (inl c, o) = absurd (cc)
Plain-of p e (inr q, o) = q

closing-InOrder :
    (p : Progress) (f : ProgressFrame)
    → shows_terminal f ≡ false
    → p.closed ≡ false
    → InOrder p
    → InOrder (end (safe_write f p))
unfolding end safe_write
closing-InOrder p f s e i =
    rw e (inl refl, Plain-append p.frames (f ∷ []) (Plain-of p e i) (inl s, inr refl, tt))

waiting-InOrder :
    (p : Progress) (n : ℕ)
    → p.closed ≡ false
    → InOrder p
    → InOrder (record p { ticks_since_write = n })
waiting-InOrder p n e i = (i.0, i.1)

on_snap-InOrder :
    (snap : Snap) (p : Progress) → p.closed ≡ false → InOrder p → InOrder (on_snap snap p)
unfolding on_snap safe_write end
on_snap-InOrder snap p e i = elim (Bool-cases (is_last p.last_status snap.status)) [
  | inl same ↦ elim (Bool-cases (suc p.ticks_since_write % 15 == 0)) [
    | inl beat ↦
        rw (same, beat, e)
          (
            inr (Plain-snoc p.frames keep_alive refl refl (Plain-of p e i)),
            Plain-append p.frames (keep_alive ∷ []) (Plain-of p e i) (inl refl, inl refl, tt),
          )
    | inr quiet ↦ rw (same, quiet) i
  ]
  | inr changed ↦ elim (Bool-cases (is_terminal_status snap.status)) [
    | inl last ↦
        rw (changed, last, e)
          (
            inl refl,
            subst Ordered
                (sym (append_assoc p.frames (status_frame (data_of snap) ∷ []) (done_frame ∷ [])))
                (Plain-append p.frames (status_frame (data_of snap) ∷ done_frame ∷ [])
                  (Plain-of p e i) (inr refl, inl refl, (inl refl, inr refl, tt))),
          )
    | inr more ↦
        rw (changed, more, e)
          (
            inr (Plain-snoc p.frames (status_frame (data_of snap)) more refl (Plain-of p e i)),
            Plain-append p.frames (status_frame (data_of snap) ∷ []) (Plain-of p e i)
                (inl more, inl refl, tt),
          )
  ]
]

on_happens-InOrder : (h : Happens) (p : Progress) → InOrder p → InOrder (on_happens h p)
unfolding on_happens end
on_happens-InOrder (tick_found snap) p i =
    if_elim InOrder p.closed _ _ (λ e. i) (λ e. on_snap-InOrder snap p e i)
on_happens-InOrder tick_missing p i =
    if_elim InOrder p.closed _ _ (λ e. i) (λ e. closing-InOrder p gone_frame refl e i)
on_happens-InOrder tick_fails p i = if_elim InOrder p.closed _ _ (λ e. i) (λ e. (inl refl, i.1))
on_happens-InOrder timer p i =
    if_elim InOrder p.closed _ _ (λ e. i) (λ e. closing-InOrder p timeout_frame refl e i)
on_happens-InOrder closes p i = (inl refl, i.1)

run_progress-InOrder : (p : Progress) (hs : List Happens) → InOrder p → InOrder (run_progress p hs)
unfolding run_progress
run_progress-InOrder p [] i = i
run_progress-InOrder p (h ∷ hs) i =
    run_progress-InOrder (on_happens h p) hs (on_happens-InOrder h p i)

-- In every progress stream, whatever the ticks read and whenever the timer or the client ends it,
-- a READY or FAILED status is followed by `done` and by nothing else, and nothing follows a
-- `done`, a `timeout` or an `error`.
pub run_progress-Ordered : (hs : List Happens) → Ordered (run_progress started hs).frames
run_progress-Ordered hs = (run_progress-InOrder started hs (inr tt, tt)).1
