-- ===== src/Documents/Status.antt =====
-- api/src/documents/document-status.ts: what a client sees of a document.
use ai_support_agent_builder.Prelude.{
  ℕ, List, [], ◌∷◌, Option, none, some, Bool, true, false, if◌then◌else◌, if_elim, ◌≡◌, refl, ◌⊎◌,
  inl, inr,
}
use ai_support_agent_builder.Text.{codes, is_empty, includes, to_lower_case}
use ai_support_agent_builder.Parsing.Types.{SourceType}
use ai_support_agent_builder.Ingest.World.{
  DocumentStatus, queued, uploaded, parsing, embedding, ready, failed_status, DocumentRow,
}

-- An entry of `FRIENDLY_ERRORS`.
pub record FriendlyError : Type 0 where
  pub match : List ℕ
  pub message : List ℕ

abbrev pub friendly_errors : List FriendlyError
friendly_errors =
    record {
      match = codes "no extractable text";
      message = codes "No readable text was found — the document may be scanned or image-only.";
    }
    ∷ record {
      match = codes "no chunkable content";
      message = codes "No usable content was found in the document.";
    }
    ∷ record {
      match = codes "does not match declared type";
      message = codes "The file's contents did not match its type.";
    }
    ∷ record {
      match = codes "not valid utf-8";
      message = codes "The file is not valid UTF-8 text.";
    }
    ∷ []

abbrev pub generic_error : List ℕ
generic_error = codes "Ingestion failed. Please try re-uploading the document."

-- The loop over the entries.
unfoldable pub friendly_message : List ℕ → List FriendlyError → List ℕ
friendly_message lower [] = generic_error
friendly_message lower (entry ∷ entries) =
    let rest = friendly_message lower entries in
    if includes lower entry.match then entry.message else rest

unfoldable pub message_for : Option (List ℕ) → List ℕ
unfolding friendly_message includes to_lower_case
message_for none = generic_error
message_for (some raw) =
    if is_empty raw then generic_error else friendly_message (to_lower_case raw) friendly_errors

unfoldable pub is_failed : DocumentStatus → Bool
is_failed failed_status = true
is_failed queued = false
is_failed uploaded = false
is_failed parsing = false
is_failed embedding = false
is_failed ready = false

unfoldable pub sanitize_document_error : Option (List ℕ) → DocumentStatus → Option (List ℕ)
unfolding is_failed message_for
sanitize_document_error raw status = if is_failed status then some (message_for raw) else none

-- Without the time stamp.
pub record DocumentStatusView : Type 0 where
  pub id : List ℕ
  pub title : List ℕ
  pub source_type : SourceType
  pub status : DocumentStatus
  pub page_count : Option ℕ
  pub chunk_count : ℕ
  pub warnings : List (List ℕ)
  pub error : Option (List ℕ)

unfoldable pub to_status_view : DocumentRow → ℕ → DocumentStatusView
unfolding sanitize_document_error
to_status_view doc chunk_count = record {
  id = doc.id;
  title = doc.title;
  source_type = doc.source_type;
  status = doc.status;
  page_count = doc.page_count;
  chunk_count = chunk_count;
  warnings = doc.warnings;
  error = sanitize_document_error doc.error doc.status;
}

unfoldable pub is_terminal_status : DocumentStatus → Bool
is_terminal_status ready = true
is_terminal_status failed_status = true
is_terminal_status queued = false
is_terminal_status uploaded = false
is_terminal_status parsing = false
is_terminal_status embedding = false

-- The messages a client can be shown: those of the table and the generic one.
abbrev pub Listed : List FriendlyError → List ℕ → Type 0
Listed [] m = m ≡ generic_error
Listed (entry ∷ entries) m = (m ≡ entry.message) ⊎ Listed entries m

friendly_message-Listed :
    (lower : List ℕ) (entries : List FriendlyError)
    → Listed entries (friendly_message lower entries)
unfolding friendly_message
friendly_message-Listed lower [] = refl
friendly_message-Listed lower (entry ∷ entries) =
    if_elim (λ m. Listed (entry ∷ entries) m) (includes lower entry.match) _ _ (λ e. inl refl)
      (λ e. inr (friendly_message-Listed lower entries))

Listed-generic : (entries : List FriendlyError) → Listed entries generic_error
Listed-generic [] = refl
Listed-generic (entry ∷ entries) = inr (Listed-generic entries)

-- No error, or one of the listed messages.
abbrev pub SafeError : Option (List ℕ) → Type 0
SafeError none = Unit
SafeError (some m) = Listed friendly_errors m

message_for-Listed : (raw : Option (List ℕ)) → Listed friendly_errors (message_for raw)
unfolding message_for
message_for-Listed none = Listed-generic friendly_errors
message_for-Listed (some raw) =
    if_elim (Listed friendly_errors) (is_empty raw) _ _ (λ e. Listed-generic friendly_errors)
      (λ e. friendly_message-Listed (to_lower_case raw) friendly_errors)

pub sanitize_document_error-SafeError :
    (raw : Option (List ℕ)) (status : DocumentStatus)
    → SafeError (sanitize_document_error raw status)
unfolding sanitize_document_error
sanitize_document_error-SafeError raw status =
    if_elim SafeError (is_failed status) _ _ (λ e. message_for-Listed raw) (λ e. tt)

-- Whatever error is stored with a document, its view shows none or one of five fixed messages, so
-- nothing of the stored text reaches a client.
pub to_status_view-SafeError :
    (doc : DocumentRow) (chunk_count : ℕ) → SafeError (to_status_view doc chunk_count).error
unfolding to_status_view
to_status_view-SafeError doc chunk_count = sanitize_document_error-SafeError doc.error doc.status
