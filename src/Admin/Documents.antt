-- ===== src/Admin/Documents.antt =====
-- admin/lib/documents.ts and admin/app/documents/page.tsx: the uploads of the page with their
-- streams, and the list of documents, without the markup.
pub mod Rows
use ai_support_agent_builder.Prelude.{
  ℕ, suc, ◌+◌, List, [], ◌∷◌, ◌++◌, map, keep, Option, none, some, Bool, true, false, ◌&&◌, ◌||◌,
  not, if◌then◌else◌, ◌==◌, ltb,
}
use ai_support_agent_builder.Text.{codes, equals, is_empty, decimal}
use ai_support_agent_builder.Ingest.World.{update_rows}

abbrev pub ingest_steps : List (List ℕ)
ingest_steps = codes "UPLOADED" ∷ codes "PARSING" ∷ codes "EMBEDDING" ∷ codes "READY" ∷ []

-- The ellipsis is one unit.
unfoldable pub status_label : List ℕ → List ℕ
unfolding equals
status_label s =
    if equals s (codes "UPLOADED")
    then codes "Uploaded"
    else if equals s (codes "PARSING")
    then codes "Parsing…"
    else if equals s (codes "EMBEDDING")
    then codes "Embedding…"
    else if equals s (codes "READY")
    then codes "Ready"
    else if equals s (codes "FAILED")
    then codes "Failed"
    else s

unfoldable pub is_terminal_status : List ℕ → Bool
unfolding equals
is_terminal_status s = equals s (codes "READY") || equals s (codes "FAILED")

abbrev pub next_index : Option ℕ → Option ℕ
next_index none = none
next_index (some i) = some (suc i)

unfoldable pub index_of : List ℕ → List (List ℕ) → Option ℕ
unfolding equals
index_of s [] = none
index_of s (t ∷ ts) = let later = next_index (index_of s ts) in if equals t s then some 0 else later

-- `none` is -1.
unfoldable pub step_index : List ℕ → Option ℕ
unfolding index_of
step_index s = index_of s ingest_steps

pub record UploadItem : Type 0 where
  pub key : List ℕ
  pub file_name : List ℕ
  pub file : List ℕ
  pub status : List ℕ
  pub error : Option (List ℕ)
  pub doc_id : Option (List ℕ)

pub record DocumentView : Type 0 where
  pub id : List ℕ
  pub title : List ℕ
  pub status : List ℕ
  pub chunk_count : ℕ

-- An open event stream: the key of its row, and the document that it watches.
pub record Stream : Type 0 where
  pub key : List ℕ
  pub doc_id : List ℕ

pub record Page : Type 0 where
  pub assistant_id : Option (List ℕ)
  pub load_error : Option (List ℕ)
  pub items : List UploadItem
  pub streams : List Stream
  pub documents : List DocumentView
  pub docs_loaded : Bool
  pub docs_error : Option (List ℕ)
  pub deleting_id : Option (List ℕ)
  pub counter : ℕ

abbrev pub has_key : List ℕ → UploadItem → Bool
has_key key it = equals it.key key

-- `setItems((prev) => prev.map(…))`, as `patch` has it.
unfoldable pub patch : List ℕ → (UploadItem → UploadItem) → Page → Page
unfolding update_rows
patch key change page = record page { items = update_rows (has_key key) change page.items }

-- `close`: the stream of the row is closed and evicted.
unfoldable pub close : List ℕ → Page → Page
close key page = record page { streams = keep (λ s. not (equals s.key key)) page.streams }

-- The part of `watch` in front of the listeners.
unfoldable pub watch : List ℕ → List ℕ → Page → Page
unfolding close
watch key doc page =
    let closed = close key page in
    record closed { streams = record { key = key; doc_id = doc } ∷ closed.streams }

-- What a stream sends: a status with its error (`none` where the frame cannot be parsed), and the
-- ends. An error of the API carries data, one of the transport does not.
pub data StreamEvent : Type 0 where
  status_event : Option (List ℕ × Option (List ℕ)) → StreamEvent
  done_event timeout_event : StreamEvent
  error_event : Bool → StreamEvent

abbrev pub or_message : List ℕ → Option (List ℕ) → List ℕ
or_message m none = m
or_message m (some s) = s

abbrev pub failure_of : List ℕ → Option (List ℕ) → Option (List ℕ)
failure_of status error =
    if equals status (codes "FAILED")
    then some (or_message (codes "Ingestion failed.") error)
    else none

abbrev pub on_status : List ℕ → Option (List ℕ × Option (List ℕ)) → Page → Page
on_status key none page = page
on_status key (some (status, error)) page =
    patch key (λ it. record it { status = status; error = failure_of status error }) page

abbrev pub lost : Bool → UploadItem → UploadItem
lost has_data it = if is_terminal_status it.status then it else record it {
  status = codes "error";
  error = some (
      if has_data
      then codes "The server reported a problem."
      else codes "Lost connection to the server.");
}

-- The listeners of the stream of a row. `done` also fetches the list of documents again, which is a
-- handler of its own.
unfoldable pub on_event : List ℕ → StreamEvent → Page → Page
unfolding patch close is_terminal_status equals
on_event key (status_event data_of) page = on_status key data_of page
on_event key done_event page =
    let closed = close key page in
    record closed { items = keep (λ it. not (has_key key it)) closed.items }
on_event key timeout_event page = close key (
    patch key
      (λ it. record it {
        status = codes "error";
        error = some (codes "Timed out — the document may still be processing.");
      })
      page)
on_event key (error_event has_data) page = close key (patch key (lost has_data) page)

unfoldable pub on_events : List ℕ → List StreamEvent → Page → Page
unfolding on_event
on_events key [] page = page
on_events key (e ∷ es) page = on_events key es (on_event key e page)

-- The answer to an upload: an exception, or a status with the members of the body.
pub data UploadAnswer : Type 0 where
  unreachable : UploadAnswer
  answered : Bool → ℕ → Option (List ℕ) → Option (List ℕ) → UploadAnswer

abbrev pub upload_failed : List ℕ → List ℕ → Page → Page
upload_failed key m = patch key (λ it. record it { status = codes "error"; error = some m })

abbrev pub failure_message : ℕ → Option (List ℕ) → List ℕ
failure_message status error =
    or_message (codes "Upload failed (" ++ (decimal status ++ codes ").")) error

abbrev pub with_document : List ℕ → Bool → ℕ → Option (List ℕ) → Option (List ℕ) → Page → Page
with_document key ok status none error page = upload_failed key (failure_message status error) page
with_document key ok status (some doc) error page =
    if ok && not (is_empty doc)
    then watch key doc
        (patch key (λ it. record it { status = codes "UPLOADED"; doc_id = some doc }) page)
    else upload_failed key (failure_message status error) page

-- `upload`: its start, and its end.
unfoldable pub start_upload : List ℕ → Page → Page
unfolding patch
start_upload key = patch key (λ it. record it { status = codes "uploading"; error = none })

unfoldable pub end_upload : List ℕ → UploadAnswer → Page → Page
unfolding patch watch decimal
end_upload key unreachable page = upload_failed key (codes "Cannot reach the server.") page
end_upload key (answered ok status doc error) page = with_document key ok status doc error page

-- `nextKey`, at a time.
unfoldable pub next_key : ℕ → ℕ → List ℕ
unfolding decimal
next_key now counter = codes "u" ++ (decimal now ++ (codes "-" ++ decimal counter))

pub record File : Type 0 where
  pub name : List ℕ
  pub bytes : List ℕ

unfoldable pub new_items : ℕ → ℕ → List File → List UploadItem
unfolding next_key
new_items now counter [] = []
new_items now counter (f ∷ fs) =
    record {
      key = next_key now counter;
      file_name = f.name;
      file = f.bytes;
      status = codes "uploading";
      error = none;
      doc_id = none;
    }
    ∷ new_items now (suc counter) fs

abbrev pub count {ℓ} : {A : Type ℓ} → List A → ℕ
count [] = 0
count (x ∷ xs) = suc (count xs)

-- `addFiles`, in front of the uploads that it starts. Without an assistant it does nothing.
unfoldable pub add_files : ℕ → List File → Page → Page
unfolding new_items
add_files now files page = elim page.assistant_id [
  | none ↦ page
  | some id ↦ record page {
    items = new_items now page.counter files ++ page.items;
    counter = page.counter + count files;
  }
]

-- The first of the tenant's assistants; `none` where their list cannot be had.
unfoldable pub on_assistants : Option (List (List ℕ)) → Page → Page
on_assistants none page = record page {
  load_error = some (codes "Could not load your assistant. Try reloading.");
}
on_assistants (some []) page = record page {
  load_error = some (codes "No assistant found for your account.");
}
on_assistants (some (id ∷ ids)) page = record page { assistant_id = some id }

-- `fetchDocuments`, when its answer is there: `none` where it fails.
unfoldable pub fetch_documents : Option (List DocumentView) → Page → Page
fetch_documents none page = record page {
  docs_error = some (codes "Could not load your documents.");
  docs_loaded = true;
}
fetch_documents (some ds) page = record page {
  documents = ds;
  docs_error = none;
  docs_loaded = true;
}

-- The end of `deleteDoc`: the status of the answer, or an exception.
unfoldable pub delete_doc : List ℕ → Bool → Option ℕ → Page → Page
delete_doc id ok none page = record page {
  docs_error = some (codes "Delete failed. Try again.");
  deleting_id = none;
}
delete_doc id ok (some status) page =
    if ok || status == 404
    then record page {
      documents = keep (λ d. not (equals d.id id)) page.documents;
      deleting_id = none;
    }
    else record page { docs_error = some (codes "Delete failed. Try again."); deleting_id = none }

-- `inFlightDocIds.has`
abbrev pub holds_doc : List ℕ → Option (List ℕ) → Bool
holds_doc id none = false
holds_doc id (some doc) = not (is_empty doc) && equals doc id

unfoldable pub in_flight : List UploadItem → List ℕ → Bool
unfolding equals
in_flight [] id = false
in_flight (it ∷ its) id = holds_doc id it.doc_id || in_flight its id

-- The rows of the list.
unfoldable pub list_docs : Page → List DocumentView
unfolding in_flight
list_docs page = keep (λ d. not (in_flight page.items d.id)) page.documents

-- `StatusBadge`, `DocBadge` and `Steps`: the class of a badge with its text, and the classes of a
-- step.
pub data BadgeClass : Type 0 where
  plain ok bad : BadgeClass

unfoldable pub status_badge : UploadItem → BadgeClass × List ℕ
unfolding equals status_label
status_badge it =
    if equals it.status (codes "uploading")
    then (plain, codes "Uploading…")
    else if equals it.status (codes "error") || equals it.status (codes "FAILED")
    then (bad, codes "Failed")
    else if equals it.status (codes "READY")
    then (ok, codes "Ready")
    else (plain, status_label it.status)

unfoldable pub doc_badge : List ℕ → BadgeClass × List ℕ
unfolding equals status_label
doc_badge status = (
  if equals status (codes "READY")
      then ok
      else if equals status (codes "FAILED")
      then bad
      else plain,
  status_label status,
)

pub record Step : Type 0 where
  pub label : List ℕ
  pub passed : Bool
  pub active : Bool

-- `i < current` and `i === current`, where -1 is none.
abbrev pub is_passed : ℕ → Option ℕ → Bool
is_passed i none = false
is_passed i (some current) = ltb i current

abbrev pub is_active : ℕ → Option ℕ → Bool
is_active i none = false
is_active i (some current) = i == current

unfoldable pub steps_from : ℕ → Option ℕ → List (List ℕ) → List Step
unfolding status_label
steps_from i current [] = []
steps_from i current (s ∷ ss) =
    record { label = status_label s; passed = is_passed i current; active = is_active i current }
    ∷ steps_from (suc i) current ss

unfoldable pub steps : List ℕ → List Step
unfolding steps_from step_index equals
steps status =
    steps_from 0 (if equals status (codes "uploading") then some 0 else step_index status)
      ingest_steps

-- A failed row, or one in error, offers another upload.
unfoldable pub offers_retry : UploadItem → Bool
unfolding equals
offers_retry it = equals it.status (codes "error") || equals it.status (codes "FAILED")
