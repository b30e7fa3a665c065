-- ===== src/Documents/Events.antt =====
-- The whole handler of `GET /documents/:id/events` in api/src/routes/documents.ts.
use ai_support_agent_builder.Prelude.{
  ℕ, suc, ◌%◌, ◌==◌, ◌⊎◌, inl, inr, not-true, not-false, List, [], ◌∷◌, ◌++◌, Bool, true, false,
  not, if◌then◌else◌, if_elim, ◌≡◌, refl,
}
use ai_support_agent_builder.Text.{codes}
use ai_support_agent_builder.Claims.{TenantClaims}
use ai_support_agent_builder.Storage.ObjectKey.{is_uuid}
use ai_support_agent_builder.Ingest.World.{World, find_document, is_found}
use ai_support_agent_builder.Documents.Status.{
  SafeError, sanitize_document_error-SafeError, is_terminal_status,
}
use ai_support_agent_builder.Documents.Routes.{Response, says, internal_error}
use ai_support_agent_builder.Documents.Progress.{
  Progress, started, ProgressFrame, status_frame, done_frame, gone_frame, timeout_frame, keep_alive,
  Snap, data_of, Happens, tick_found, tick_missing, tick_fails, timer, closes, run_progress,
  on_happens, on_snap, safe_write, end, is_last, Ordered, run_progress-Ordered,
}

-- A plain answer, or a stream as it is when the last of the happenings is over.
pub data EventsReply : Type 0 where
  responds : Response → EventsReply
  streams : Progress → EventsReply

unfoldable pub get_events : Bool → TenantClaims → List ℕ → World → List Happens → EventsReply
unfolding is_uuid find_document run_progress
get_events fails tenant id w hs =
    if not (is_uuid id)
    then responds (says 400 (codes "invalid document id"))
    else if fails
    then responds internal_error
    else if not (is_found (find_document id tenant.tenant_id w))
    then responds (says 404 (codes "document not found"))
    else streams (run_progress started hs)

-- A frame that shows no more than the fixed messages.
abbrev pub IsSafe : ProgressFrame → Type 0
IsSafe (status_frame d) = SafeError d.error
IsSafe keep_alive = Unit
IsSafe done_frame = Unit
IsSafe gone_frame = Unit
IsSafe timeout_frame = Unit

abbrev pub AllSafe : List ProgressFrame → Type 0
AllSafe [] = Unit
AllSafe (f ∷ fs) = IsSafe f × AllSafe fs

AllSafe-snoc :
    (fs : List ProgressFrame) (f : ProgressFrame) → AllSafe fs → IsSafe f → AllSafe (fs ++ f ∷ [])
AllSafe-snoc [] f a s = (s, tt)
AllSafe-snoc (g ∷ fs) f (b, a) s = (b, AllSafe-snoc fs f a s)

safe_write-AllSafe :
    (f : ProgressFrame) (p : Progress)
    → IsSafe f
    → AllSafe p.frames
    → AllSafe (safe_write f p).frames
unfolding safe_write
safe_write-AllSafe f p s a =
    if_elim (λ (q : Progress). AllSafe q.frames) p.closed _ _ (λ e. a)
      (λ e. AllSafe-snoc p.frames f a s)

on_snap-AllSafe : (snap : Snap) (p : Progress) → AllSafe p.frames → AllSafe (on_snap snap p).frames
unfolding on_snap end
on_snap-AllSafe snap p a =
    let P = λ (q : Progress). AllSafe q.frames in
    let written =
      safe_write-AllSafe (status_frame (data_of snap)) _
        (sanitize_document_error-SafeError snap.error snap.status) a in
    if_elim P (not (is_last p.last_status snap.status)) _ _
      (λ e.
        if_elim P (is_terminal_status snap.status) _ _
          (λ e. safe_write-AllSafe done_frame _ tt written) (λ e. written))
      (λ e.
        if_elim P (suc p.ticks_since_write % 15 == 0) _ _
          (λ e. safe_write-AllSafe keep_alive _ tt a) (λ e. a))

on_happens-AllSafe :
    (h : Happens) (p : Progress) → AllSafe p.frames → AllSafe (on_happens h p).frames
unfolding on_happens end
on_happens-AllSafe (tick_found snap) p a =
    if_elim (λ (q : Progress). AllSafe q.frames) p.closed _ _ (λ e. a)
      (λ e. on_snap-AllSafe snap p a)
on_happens-AllSafe tick_missing p a =
    if_elim (λ (q : Progress). AllSafe q.frames) p.closed _ _ (λ e. a)
      (λ e. safe_write-AllSafe gone_frame p tt a)
on_happens-AllSafe tick_fails p a =
    if_elim (λ (q : Progress). AllSafe q.frames) p.closed _ _ (λ e. a) (λ e. a)
on_happens-AllSafe timer p a =
    if_elim (λ (q : Progress). AllSafe q.frames) p.closed _ _ (λ e. a)
      (λ e. safe_write-AllSafe timeout_frame p tt a)
on_happens-AllSafe closes p a = a

run_progress-AllSafe :
    (hs : List Happens) (p : Progress) → AllSafe p.frames → AllSafe (run_progress p hs).frames
unfolding run_progress
run_progress-AllSafe [] p a = a
run_progress-AllSafe (h ∷ hs) p a =
    run_progress-AllSafe hs (on_happens h p) (on_happens-AllSafe h p a)

-- What an answer says of the document.
abbrev pub Served : Bool → TenantClaims → List ℕ → World → EventsReply → Type 0
Served fails tenant id w (streams p) =
    (fails ≡ false)
    × (is_found (find_document id tenant.tenant_id w) ≡ true)
    × (is_uuid id ≡ true)
    × Ordered p.frames
    × AllSafe p.frames
Served fails tenant id w (responds r) =
    ((fails ≡ true) × (r ≡ internal_error))
    ⊎ (((is_found (find_document id tenant.tenant_id w) ≡ false)
          × (r ≡ says 404 (codes "document not found")))
        ⊎ ((is_uuid id ≡ false) × (r ≡ says 400 (codes "invalid document id"))))

-- A progress stream is opened only for a document that the tenant has; whatever the ticks read and
-- whenever the timer or the client ends it, a READY or FAILED status is followed by `done` and by
-- nothing else, nothing follows a `done`, a `timeout` or an `error`, and every error in it is one of
-- the fixed messages. A plain answer is 400 without a uuid, 500 where the database fails, and 404 for
-- a document that the tenant does not have.
pub get_events-Served :
    (fails : Bool) (tenant : TenantClaims) (id : List ℕ) (w : World) (hs : List Happens)
    → Served fails tenant id w (get_events fails tenant id w hs)
unfolding get_events
get_events-Served fails tenant id w hs =
    let P = Served fails tenant id w in
    if_elim P (not (is_uuid id)) _ _ (λ e. inr (inr (not-true _ e, refl)))
      (λ u.
        if_elim P fails _ _ (λ e. inl (e, refl))
          (λ works.
            if_elim P (not (is_found (find_document id tenant.tenant_id w))) _ _
              (λ e. inr (inl (not-true _ e, refl)))
              (λ e. (
                works,
                not-false _ e,
                not-false _ u,
                run_progress-Ordered hs,
                run_progress-AllSafe hs started tt,
              ))))
