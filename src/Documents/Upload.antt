-- ===== src/Documents/Upload.antt =====
-- What an upload leaves behind (api/src/routes/documents.ts).
use ai_support_agent_builder.Prelude.{
  ℕ, List, [], ◌∷◌, Option, none, some, Bool, true, false, ◌||◌, not, if_elim, ◌≡◌, ◌≢◌, refl, ◌⊎◌,
  inl, inr, Bool-cases, arith,
}
use ai_support_agent_builder.Text.{to_lower_case, codes, equals, equals_iff}
use ai_support_agent_builder.Claims.{TenantClaims}
use ai_support_agent_builder.Parsing.Types.{SourceType}
use ai_support_agent_builder.Ingest.World.{
  DocumentRow, uploaded, IngestJobData, StoredObject, is_document, find_row, find_document,
  is_found,
}
use ai_support_agent_builder.Ingest.Store.{is_assistant}
use ai_support_agent_builder.Storage.ObjectKey.{tenant_object_key}
use ai_support_agent_builder.Documents.SourceType.{resolve_source_type}
use ai_support_agent_builder.Documents.Routes.{
  Service, UploadedFile, Faults, enqueue, new_document, store_upload, post_document, Handled,
  job_of, create_document, put_object, with_key, with_type,
}

equals_refl : (s : List ℕ) → equals s s ≡ true
equals_refl s = (equals_iff s s).1 refl

-- A job of the document is in the queue.
unfoldable pub has_job : List ℕ → List IngestJobData → Bool
has_job document [] = false
has_job document (j ∷ js) = equals j.document_id document || has_job document js

has_job-enqueue :
    (job : IngestJobData) (js : List IngestJobData)
    → has_job job.document_id (enqueue job js) ≡ true
unfolding has_job enqueue
has_job-enqueue job [] = rw (equals_refl job.document_id) refl
has_job-enqueue job (j ∷ js) = elim (Bool-cases (equals j.document_id job.document_id)) [
  | inl same ↦ rw (same, same) refl
  | inr new ↦ rw (new, new) (has_job-enqueue job js)
]

-- The row, its object and its job are in place.
abbrev pub InPlace : TenantClaims → List ℕ → UploadedFile → Service → Type 0
InPlace tenant document file s =
    (row : DocumentRow) × (find_document document tenant.tenant_id s.world ≡ some row)
    × (row.status ≡ uploaded)
    × (find_row (λ o. equals o.key row.storage_key) s.world.objects
        ≡ some (record { key = row.storage_key; body = file.buffer }))
    × (has_job document s.jobs ≡ true)

-- All is in place and the answer is 201, or the answer is another and the queue is as it was.
abbrev pub Settled : TenantClaims → List ℕ → UploadedFile → Service → Handled → Type 0
Settled tenant document file s (r, t) =
    ((r.status ≡ 201) × InPlace tenant document file t) ⊎ ((r.status ≢ 201) × (t.jobs ≡ s.jobs))

module _ (tenant : TenantClaims) (document : List ℕ) (file : UploadedFile) (s : Service) where
  found_first :
      (row : DocumentRow) (rows : List DocumentRow)
      → find_row (is_document row.id row.tenant_id) (row ∷ rows) ≡ some row
  unfolding find_row
  found_first row rows = rw (equals_refl (to_lower_case row.id), equals_refl row.tenant_id) refl

  object_first :
      (o : StoredObject) (os : List StoredObject)
      → find_row (λ x. equals x.key o.key) (o ∷ os) ≡ some o
  unfolding find_row
  object_first o os = rw (equals_refl o.key) refl

  placed :
      (assistant key : List ℕ) (source_type : SourceType)
      → InPlace tenant document file (record {
        world =
            create_document
              (new_document tenant assistant document key file source_type)
              (put_object key file.buffer s.world);
        jobs = enqueue (job_of tenant assistant document) s.jobs;
      })
  unfolding find_document
  placed assistant key source_type =
      let row = new_document tenant assistant document key file source_type in
      (
        row,
        found_first row s.world.documents,
        refl,
        object_first (record { key = key; body = file.buffer }) s.world.objects,
        has_job-enqueue (job_of tenant assistant document) s.jobs,
      )

  store_upload-Settled :
      (faults : Faults) (assistant key : List ℕ) (source_type : SourceType)
      → Settled tenant document file s
          (store_upload faults tenant assistant document key file source_type s)
  unfolding store_upload find_document find_row
  store_upload-Settled faults assistant key source_type =
      let P = Settled tenant document file s in
      if_elim P faults.lookup_fails _ _ (λ e. inr ((λ q. ground arith), refl))
        (λ e.
          if_elim P
            (not (is_found (find_row (is_assistant assistant tenant.tenant_id) s.world.assistants)))
            _ _ (λ e. inr ((λ q. ground arith), refl))
            (λ e.
              if_elim P faults.put_fails _ _ (λ e. inr ((λ q. ground arith), refl))
                (λ e.
                  if_elim P faults.create_fails _ _ (λ e. inr ((λ q. ground arith), refl))
                    (λ e.
                      if_elim P faults.enqueue_fails _ _ (λ e. inr ((λ q. ground arith), refl))
                        (λ e. inl (refl, placed assistant key source_type))))))

  with_key-Settled :
      (o : Option (List ℕ)) (f : List ℕ → Handled)
      → ((key : List ℕ) → Settled tenant document file s (f key))
      → Settled tenant document file s (with_key o s f)
  with_key-Settled none f h = inr ((λ q. ground arith), refl)
  with_key-Settled (some key) f h = h key

  with_type-Settled :
      (o : Option SourceType) (f : SourceType → Handled)
      → ((t : SourceType) → Settled tenant document file s (f t))
      → Settled tenant document file s (with_type o s f)
  with_type-Settled none f h = inr ((λ q. ground arith), refl)
  with_type-Settled (some t) f h = h t

  -- An upload that is answered 201 has its row (UPLOADED), the bytes of the file under the row's
  -- key and its job in place; every other answer leaves the queue as it was, whichever call to the
  -- outside fails.
  pub post_document-Settled :
      (faults : Faults) (assistant : Option (List ℕ))
      → Settled tenant document file s
          (post_document faults tenant assistant (some file) document s)
  unfolding post_document
  post_document-Settled faults none = inr ((λ q. ground arith), refl)
  post_document-Settled faults (some assistant) =
      with_type-Settled (resolve_source_type file.originalname) _ λ source_type.
        with_key-Settled (tenant_object_key tenant.tenant_id document (codes "original")) _
          λ key. store_upload-Settled faults assistant key source_type
