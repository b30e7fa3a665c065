-- ===== src/Ingest/Pipeline/Status.antt =====
-- The status a document has after a job, and after its last failure.
use ai_support_agent_builder.Prelude.{
  ℕ, List, [], ◌∷◌, Option, none, some, Bool, true, false, ◌&&◌, not, if◌then◌else◌, ◌≡◌, refl, sym,
  ap, ◌∙◌, subst, Bool-cases, inl, inr, leb, take,
}
use ai_support_agent_builder.Effects.{
  Void, Ran, ran, Message, after, state_of, after-eq-ran, ran_inj,
}
use ai_support_agent_builder.Ingest.World.{
  World, DocumentRow, DocumentStatus, queued, uploaded, parsing, embedding, ready, failed_status,
  IngestJobData, find_row, update_rows, find_document, is_document,
}
use ai_support_agent_builder.Ingest.Store.{
  set_status, with_status, status_if, mark_failed, is_ready, update_if,
}
use ai_support_agent_builder.Ingest.Pipeline.{
  IngestDeps, parse_stage, embed_stage, default_stages, run_ingestion, on_failed, max_error_length,
}
use ai_support_agent_builder.Ingest.Pipeline.Resume.{
  status_of, left_to_do, from_start, from_parsing, from_embedding, run_ingestion-left_to_do,
}

abbrev pub map_some {ℓ} : {A : Type ℓ} → (A → A) → Option A → Option A
map_some f none = none
map_some f (some a) = some (f a)

-- A change that keeps what is searched for reaches what is found.
find_row-update_rows {ℓ} :
    {A : Type ℓ} (test : A → Bool) (change : A → A) (rows : List A)
    → ((row : A) → test (change row) ≡ test row)
    → find_row test (update_rows test change rows) ≡ map_some change (find_row test rows)
unfolding find_row update_rows
find_row-update_rows test change [] h = refl
find_row-update_rows test change (row ∷ rows) h = elim (Bool-cases (test row)) [
  | inl e ↦ rw (e, h row, e) refl
  | inr e ↦ rw (e, e) (find_row-update_rows test change rows h)
]

-- The same, where only some of the rows that are searched for are changed.
find_row-update_where {ℓ} :
    {A : Type ℓ} (test extra : A → Bool) (change : A → A) (rows : List A)
    → ((row : A) → test (change row) ≡ test row)
    → find_row test (update_rows (λ row. test row && extra row) change rows)
      ≡ map_some (λ row. if extra row then change row else row) (find_row test rows)
unfolding find_row update_rows
find_row-update_where test extra change [] h = refl
find_row-update_where test extra change (row ∷ rows) h = elim (Bool-cases (test row)) [
  | inl e ↦ elim (Bool-cases (extra row)) [
    | inl x ↦ rw (e, x, h row, e) refl
    | inr x ↦ rw (e, x, e) refl
  ]
  | inr e ↦ rw (e, e) (find_row-update_where test extra change rows h)
]

module _ (job : IngestJobData) where
  found_updated :
      (o : Option DocumentRow) (change : DocumentRow → DocumentRow) (w u v : World) (a : Void)
      → update_if o w u ≡ ran v a
      → (row : DocumentRow) × (o ≡ some row) × (u ≡ v)
  found_updated none change w u v a h = absurd (cc)
  found_updated (some row) change w u v a h = (row, refl, ran_inj h)

  set_status-status :
      (status : DocumentStatus) (w v : World) (a : Void)
      → set_status job.document_id job.tenant_id status w ≡ ran v a
      → status_of job v ≡ some status
  unfolding set_status find_document
  set_status-status status w v a h =
      let (row, e, same) =
        found_updated (find_row (is_document job.document_id job.tenant_id) w.documents)
          (with_status status) w _ v a h in
      subst (λ u. status_of job u ≡ some status) same
        (ap status_if (
          find_row-update_rows (is_document job.document_id job.tenant_id) (with_status status)
            w.documents (λ r. refl)
          ∙ ap (map_some (with_status status)) e))

  last_set :
      (r : Ran World Void) (status : DocumentStatus) (v : World) (a : Void)
      → after r (λ b. set_status job.document_id job.tenant_id status) ≡ ran v a
      → status_of job v ≡ some status
  last_set r status v a h =
      let (t, b, e, g) = after-eq-ran r (λ b. set_status job.document_id job.tenant_id status) h in
      set_status-status status t v a g

  module _ (deps : IngestDeps) where
    embedding-ready :
        (w v : World) (a : Void)
        → from_embedding deps job w ≡ ran v a
        → status_of job v ≡ some ready
    embedding-ready w v a h = last_set (embed_stage deps job w) ready v a h

    parsing-ready :
        (w v : World) (a : Void) → from_parsing deps job w ≡ ran v a → status_of job v ≡ some ready
    parsing-ready w v a h =
        let (t, b, e, g) = after-eq-ran (parse_stage deps job w) _ h in
        let (u, c, f, k) =
          after-eq-ran (set_status job.document_id job.tenant_id embedding t) _ g in
        embedding-ready u v a k

    start-ready :
        (w v : World) (a : Void) → from_start deps job w ≡ ran v a → status_of job v ≡ some ready
    start-ready w v a h =
        let (t, b, e, g) = after-eq-ran (set_status job.document_id job.tenant_id parsing w) _ h in
        parsing-ready t v a g

    left_to_do-ready :
        (o : Option DocumentStatus) (w v : World) (a : Void)
        → status_of job w ≡ o
        → left_to_do deps job o w ≡ ran v a
        → status_of job v ≡ some ready
    left_to_do-ready none w v a s h = absurd (cc)
    left_to_do-ready (some queued) w v a s h = start-ready w v a h
    left_to_do-ready (some uploaded) w v a s h = start-ready w v a h
    left_to_do-ready (some failed_status) w v a s h = start-ready w v a h
    left_to_do-ready (some parsing) w v a s h = parsing-ready w v a h
    left_to_do-ready (some embedding) w v a s h = embedding-ready w v a h
    left_to_do-ready (some ready) w v a s h =
        subst (λ u. status_of job u ≡ some ready) (ran_inj h) s

    -- A job that ends without an error leaves its document READY, from whatever status it starts.
    pub run_ingestion-ready :
        (w v : World) (a : Void)
        → run_ingestion (default_stages deps) job w ≡ ran v a
        → status_of job v ≡ some ready
    run_ingestion-ready w v a h =
        left_to_do-ready (status_of job w) w v a refl
          (sym (run_ingestion-left_to_do deps job w) ∙ h)

  abbrev pub failed_row : Message → DocumentRow → DocumentRow
  failed_row error row = record row { status = failed_status; error = some error }

  -- What a failed job makes of a row: nothing before its last attempt, nothing of a READY row.
  abbrev pub after_failure : Bool → Message → DocumentRow → DocumentRow
  after_failure false error row = row
  after_failure true error row =
      if not (is_ready row.status) then failed_row (take max_error_length error) row else row

  map_some_same : (o : Option DocumentRow) → o ≡ map_some (λ row. row) o
  map_some_same none = refl
  map_some_same (some row) = refl

  -- The failure of a job changes the row of its document only after the last attempt and never if
  -- the row is READY: then the status is FAILED, with the error cut to 2000 characters.
  pub on_failed-after_failure :
      (attempts attempts_made : ℕ) (error : Message) (w : World)
      → find_document job.document_id job.tenant_id
          (state_of (on_failed job attempts attempts_made error w))
        ≡ map_some
            (after_failure (leb attempts attempts_made) error)
            (find_document job.document_id job.tenant_id w)
  unfolding on_failed mark_failed find_document
  on_failed-after_failure attempts attempts_made error w =
      elim (Bool-cases (leb attempts attempts_made)) [
        | inl e ↦ rw e (
            find_row-update_where (is_document job.document_id job.tenant_id)
              (λ row. not (is_ready row.status)) (failed_row (take max_error_length error))
              w.documents (λ r. refl))
        | inr e ↦ rw e (map_some_same (find_document job.document_id job.tenant_id w))
      ]
