-- ===== src/Documents/Routes.antt =====
-- The upload, the lookups and the removal of api/src/routes/documents.ts.
use ai_support_agent_builder.Prelude.{
  ℕ, List, [], ◌∷◌, map, keep, take, Option, none, some, Bool, ◌&&◌, not, if◌then◌else◌, min, max,
  ◌==◌, length,
}
use ai_support_agent_builder.Text.{codes, equals}
use ai_support_agent_builder.Claims.{TenantClaims}
use ai_support_agent_builder.Parsing.Types.{SourceType}
use ai_support_agent_builder.Ingest.World.{
  World, DocumentRow, ChunkRow, uploaded, IngestJobData, is_document, same_uuid, find_row,
  find_document, is_found,
}
use ai_support_agent_builder.Ingest.Store.{is_assistant}
use ai_support_agent_builder.Storage.ObjectKey.{is_uuid, tenant_object_key}
use ai_support_agent_builder.Documents.SourceType.{resolve_source_type}
use ai_support_agent_builder.Documents.Status.{DocumentStatusView, to_status_view}

-- What multer hands to its callback: nothing, or an error.
pub data UploadError : Type 0 where
  unsupported_type limit_file_size other_multer_error other_error : UploadError

pub data Body : Type 0 where
  message : List ℕ → Body
  created : List ℕ → Body
  view : DocumentStatusView → Body
  views : List DocumentStatusView → Body
  empty : Body

pub record Response : Type 0 where
  pub status : ℕ
  pub body : Body

abbrev pub says : ℕ → List ℕ → Response
says status m = record { status = status; body = message m }

-- `runMulter`
unfoldable pub upload_error_response : UploadError → Response
upload_error_response unsupported_type = says 415 (codes "unsupported file type")
upload_error_response limit_file_size = says 413 (codes "file too large")
upload_error_response other_multer_error = says 400 (codes "invalid upload")
upload_error_response other_error = says 400 (codes "invalid upload")

-- The database, the storage and the queue.
pub record Service : Type 0 where
  pub world : World
  pub jobs : List IngestJobData

pub record UploadedFile : Type 0 where
  pub originalname : List ℕ
  pub buffer : List ℕ

-- Which of the calls to the outside fail.
pub record Faults : Type 0 where
  pub lookup_fails : Bool
  pub put_fails : Bool
  pub create_fails : Bool
  pub enqueue_fails : Bool

abbrev pub internal_error : Response
internal_error = says 500 (codes "internal error")

abbrev pub max_title_length : ℕ
max_title_length = 255

-- `queue.add` with the document as `jobId`: a job that is there is not added again.
unfoldable pub enqueue : IngestJobData → List IngestJobData → List IngestJobData
enqueue job [] = job ∷ []
enqueue job (j ∷ js) =
    let rest = enqueue job js in if equals j.document_id job.document_id then j ∷ js else j ∷ rest

abbrev pub put_object : List ℕ → List ℕ → World → World
put_object key body w = record w { objects = record { key = key; body = body } ∷ w.objects }

abbrev pub create_document : DocumentRow → World → World
create_document row w = record w { documents = row ∷ w.documents }

abbrev pub new_document :
    TenantClaims → List ℕ → List ℕ → List ℕ → UploadedFile → SourceType → DocumentRow
new_document tenant assistant document key file source_type = record {
  id = document;
  tenant_id = tenant.tenant_id;
  assistant_id = assistant;
  title = take max_title_length file.originalname;
  source_type = source_type;
  storage_key = key;
  status = uploaded;
  page_count = none;
  warnings = [];
  error = none;
}

abbrev pub job_of : TenantClaims → List ℕ → List ℕ → IngestJobData
job_of tenant assistant document = record {
  document_id = document;
  tenant_id = tenant.tenant_id;
  assistant_id = assistant;
}

-- An answer with the state it leaves.
abbrev pub Handled : Type 0
Handled = Response × Service

-- From the lookup of the assistant on, with the identifier and the key of the document.
unfoldable pub store_upload :
    Faults → TenantClaims → List ℕ → List ℕ → List ℕ → UploadedFile → SourceType → Service → Handled
unfolding find_row enqueue
store_upload faults tenant assistant document key file source_type s =
    let stored = put_object key file.buffer s.world in
    let with_row =
      create_document (new_document tenant assistant document key file source_type) stored in
    if faults.lookup_fails
    then (internal_error, s)
    else if not (is_found (find_row (is_assistant assistant tenant.tenant_id) s.world.assistants))
    then (says 404 (codes "assistant not found"), s)
    else if faults.put_fails
    then (internal_error, s)
    else if faults.create_fails
    then (internal_error, record s { world = stored })
    else if faults.enqueue_fails
    then (internal_error, record s { world = with_row })
    else (
      record { status = 201; body = created document },
      record { world = with_row; jobs = enqueue (job_of tenant assistant document) s.jobs },
    )

-- `none` where `tenantObjectKey` throws, before anything is done.
abbrev pub with_key : Option (List ℕ) → Service → (List ℕ → Handled) → Handled
with_key none s f = (internal_error, s)
with_key (some key) s f = f key

abbrev pub with_type : Option SourceType → Service → (SourceType → Handled) → Handled
with_type none s f = (says 415 (codes "unsupported file type"), s)
with_type (some source_type) s f = f source_type

-- `POST /documents` behind multer: the assistant of the body (`none` where the schema refuses it),
-- the file, and the identifier that `randomUUID` gives.
unfoldable pub post_document :
    Faults → TenantClaims → Option (List ℕ) → Option UploadedFile → List ℕ → Service → Handled
unfolding resolve_source_type tenant_object_key store_upload
post_document faults tenant none file document s =
    (says 400 (codes "assistantId (uuid) is required"), s)
post_document faults tenant (some assistant) none document s =
    (says 400 (codes "file is required"), s)
post_document faults tenant (some assistant) (some file) document s =
    with_type (resolve_source_type file.originalname) s λ source_type.
      with_key (tenant_object_key tenant.tenant_id document (codes "original")) s
        λ key. store_upload faults tenant assistant document key file source_type s

-- The chunks of a document that the tenant sees.
unfoldable pub chunk_count : List ℕ → List ℕ → List ChunkRow → ℕ
unfolding keep
chunk_count id tenant chunks =
    length (keep (λ c. same_uuid c.document_id id && equals c.tenant_id tenant) chunks)

abbrev pub view_or_missing : Option DocumentRow → ℕ → Response
view_or_missing none n = says 404 (codes "document not found")
view_or_missing (some doc) n = record { status = 200; body = view (to_status_view doc n) }

-- `GET /documents/:id`
unfoldable pub get_document : Bool → TenantClaims → List ℕ → World → Response
unfolding is_uuid find_document chunk_count
get_document fails tenant id w =
    if not (is_uuid id)
    then says 400 (codes "invalid document id")
    else if fails
    then internal_error
    else view_or_missing (find_document id tenant.tenant_id w)
        (chunk_count id tenant.tenant_id w.chunks)

-- `GET /documents`: the limit, for a query value that is a whole number that is not negative
-- (`none` for all else, which `Number(…) || 50` makes 50).
unfoldable pub page_limit : Option ℕ → ℕ
page_limit none = 50
page_limit (some n) = min (max (if n == 0 then 50 else n) 1) 200

-- The rows of an assistant, the newest first, as the database returns them.
unfoldable pub list_documents : Bool → TenantClaims → Option (List ℕ) → Option ℕ → World → Response
unfolding keep chunk_count page_limit
list_documents fails tenant none limit w =
    says 400 (codes "assistantId (uuid) query param is required")
list_documents fails tenant (some assistant) limit w = if fails then internal_error else record {
  status = 200;
  body = views (
      map (λ doc. to_status_view doc (chunk_count doc.id tenant.tenant_id w.chunks))
        (take (page_limit limit) (
          keep
            (λ doc. same_uuid doc.assistant_id assistant && equals doc.tenant_id tenant.tenant_id)
            w.documents)));
}

-- The foreign key of a chunk (api/prisma/schema.prisma): the document of its tenant and assistant.
abbrev pub belongs_to : ChunkRow → DocumentRow → Bool
belongs_to c row =
    equals c.document_id row.id
    && (equals c.tenant_id row.tenant_id && equals c.assistant_id row.assistant_id)

-- `onDelete: Cascade`
abbrev pub goes_with : List DocumentRow → ChunkRow → Bool
goes_with removed c = is_found (find_row (belongs_to c) removed)

-- `deleteMany` under row-level security, with the chunks of the rows that it removes.
unfoldable pub remove_document : List ℕ → List ℕ → World → World
unfolding keep find_row
remove_document id tenant w = record w {
  documents = keep (λ row. not (is_document id tenant row)) w.documents;
  chunks = keep (λ c. not (goes_with (keep (is_document id tenant) w.documents) c)) w.chunks;
}

unfoldable pub remove_object : List ℕ → World → World
unfolding keep
remove_object key w = record w { objects = keep (λ o. not (equals o.key key)) w.objects }

abbrev pub delete_found : Bool → List ℕ → List ℕ → Option DocumentRow → World → Response × World
delete_found storage_fails id tenant none w = (says 404 (codes "document not found"), w)
delete_found storage_fails id tenant (some doc) w =
    let removed = remove_document id tenant w in
    (
      record { status = 204; body = empty },
      (if storage_fails then removed else remove_object doc.storage_key removed),
    )

-- `DELETE /documents/:id`; a storage that fails is only logged.
unfoldable pub delete_document : Bool → Bool → TenantClaims → List ℕ → World → Response × World
unfolding is_uuid find_document remove_document remove_object
delete_document fails storage_fails tenant id w =
    if not (is_uuid id)
    then (says 400 (codes "invalid document id"), w)
    else if fails
    then (internal_error, w)
    else delete_found storage_fails id tenant.tenant_id (find_document id tenant.tenant_id w) w
