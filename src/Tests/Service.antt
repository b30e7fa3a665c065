-- ===== src/Tests/Service.antt =====
-- The documents and the storage.
use ai_support_agent_builder.Prelude.{keep, ℕ, List, [], ◌∷◌, ◌≡◌, refl, none, some, true, false}
use ai_support_agent_builder.Text.{to_lower_case, codes, equals, to_lower_case}
use ai_support_agent_builder.Claims.{TenantClaims}
use ai_support_agent_builder.Parsing.Types.{pdf}
use ai_support_agent_builder.Ingest.World.{
  World, ChunkRow, DocumentRow, parsing, ready, failed_status,
}
use ai_support_agent_builder.Documents.Events.{Served, get_events, get_events-Served, streams}
use ai_support_agent_builder.Documents.Progress.{
  Snap, Happens, tick_found, timer, closes, started, run_progress,
}
use ai_support_agent_builder.Documents.Routes.{
  Service, UploadedFile, Faults, post_document, delete_document,
}
use ai_support_agent_builder.Documents.Upload.{Settled, post_document-Settled}
use ai_support_agent_builder.Documents.Removal.{rows_of, delete_document-isolated}
use ai_support_agent_builder.Storage.ObjectKey.{tenant_object_key, tenant_object_key_inj}
use ai_support_agent_builder.Storage.Memory.{StoredBody, Entry, StorageConfig}

abbrev tenant : TenantClaims
tenant = record {
  tenant_id = codes "11111111-2222-3333-4444-555555555555";
  user_id = some (codes "u");
  assistant_id = none;
}

abbrev document : List ℕ
document = codes "AAAAAAAA-bbbb-cccc-dddd-eeeeeeeeeeee"

abbrev file : UploadedFile
file = record { originalname = codes "guide.pdf"; buffer = codes "%PDF-" }

abbrev no_faults : Faults
no_faults = record {
  lookup_fails = false;
  put_fails = false;
  create_fails = false;
  enqueue_fails = false;
}

abbrev service : Service
service = record {
  world = record {
    documents = [];
    chunks = [];
    objects = [];
    drawn = 0;
    assistants =
        record { id = codes "a"; tenant_id = tenant.tenant_id; embedding_model = none } ∷ [];
  };
  jobs = [];
}

post_document-Settled_example :
    Settled tenant document file service
      (post_document no_faults tenant (some (codes "a")) (some file) document service)
post_document-Settled_example =
    post_document-Settled tenant document file service no_faults (some (codes "a"))

abbrev failed_row : DocumentRow
failed_row = record {
  id = codes "d";
  tenant_id = codes "t";
  assistant_id = codes "a";
  title = codes "T";
  source_type = pdf;
  storage_key = codes "k";
  status = failed_status;
  page_count = none;
  warnings = [];
  error = some (codes "connect s3.internal: No Extractable Text");
}

abbrev world : World
world = record {
  documents = failed_row ∷ [];
  chunks = [];
  assistants = [];
  objects = [];
  drawn = 0;
}

-- Two tenants with a document of the same identifier and a chunk each.
abbrev chunk_of : List ℕ → ChunkRow
chunk_of tenant_id = record {
  id = codes "c";
  tenant_id = tenant_id;
  document_id = document;
  assistant_id = codes "a";
  content = codes "text";
  token_count = 1;
  page = none;
  section = none;
  char_start = 0;
  char_end = 4;
  content_hash = codes "h";
  vector = none;
}

abbrev shared_world : World
shared_world = record world {
  documents =
      record failed_row { id = document; tenant_id = tenant.tenant_id }
      ∷ record failed_row { id = document }
      ∷ [];
  chunks = chunk_of tenant.tenant_id ∷ chunk_of (codes "t") ∷ [];
}

not_t : equals tenant.tenant_id (codes "t") ≡ false
unfolding equals
not_t = refl

delete_document-isolated_example :
    rows_of (codes "t") (delete_document false false tenant document shared_world).1
    ≡ rows_of (codes "t") shared_world
delete_document-isolated_example =
    delete_document-isolated tenant (codes "t") not_t false false document shared_world

one_chunk_left :
    (delete_document false false tenant document shared_world).1.chunks ≡ chunk_of (codes "t") ∷ []
unfolding delete_document equals keep to_lower_case
one_chunk_left = refl

abbrev snap : Snap
snap = record { status = ready; page_count = some 2; warnings = []; error = none; chunk_count = 4 }

abbrev happenings : List Happens
happenings = tick_found (record snap { status = parsing }) ∷ tick_found snap ∷ timer ∷ closes ∷ []

-- A world in which the tenant has the document.
abbrev owned_world : World
owned_world = record world {
  documents = record failed_row { id = document; tenant_id = tenant.tenant_id } ∷ [];
}

get_events-Served_example :
    Served false tenant document owned_world
      (get_events false tenant document owned_world happenings)
get_events-Served_example = get_events-Served false tenant document owned_world happenings

stream_opened :
    get_events false tenant document owned_world happenings
    ≡ streams (run_progress started happenings)
unfolding get_events equals
stream_opened = refl

abbrev key : List ℕ
key =
    codes
      "tenants/11111111-2222-3333-4444-555555555555/aaaaaaaa-bbbb-cccc-dddd-eeeeeeeeeeee/original"

key_made : tenant_object_key tenant.tenant_id document (codes "original") ≡ some key
unfolding tenant_object_key
key_made = refl

key_made_again :
    tenant_object_key tenant.tenant_id (to_lower_case document) (codes "original") ≡ some key
unfolding tenant_object_key
key_made_again = refl

tenant_object_key_inj_example :
    (to_lower_case tenant.tenant_id ≡ to_lower_case tenant.tenant_id)
    × (to_lower_case document ≡ to_lower_case (to_lower_case document))
    × (codes "original" ≡ codes "original")
tenant_object_key_inj_example =
    tenant_object_key_inj tenant.tenant_id tenant.tenant_id document (to_lower_case document)
      (codes "original") (codes "original") key key_made key_made_again

abbrev one_object : List Entry
one_object =
    record { key = codes "k"; value = record { body = codes "x"; content_type = codes "t" } } ∷ []

abbrev body : StoredBody
body = record { body = codes "y"; content_type = codes "t" }

abbrev bare : StorageConfig
bare = record {
  bucket = [];
  region = [];
  access_key_id = [];
  secret_access_key = [];
  production = true;
}
