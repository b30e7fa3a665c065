-- ===== src/Tests/Browser.antt =====
-- The admin application: the event streams, the paths, the route handlers and the pages.
use ai_support_agent_builder.Prelude.{
  ℕ, List, [], ◌∷◌, ◌++◌, Option, none, some, true, false, ◌≡◌, refl,
}
use ai_support_agent_builder.Text.{codes, equals, starts_with}
use ai_support_agent_builder.Number.{finite, pos}
use ai_support_agent_builder.Parsing.Assemble.Anchors.{All}
use ai_support_agent_builder.Chat.Route as Route
use ai_support_agent_builder.Chat.Route.{Frame, token}
use ai_support_agent_builder.Admin.Sse.{parse_sse_frames, sse, with_frames, is_line_terminator}
use ai_support_agent_builder.Admin.Sse.RoundTrip.{OneLine, parse_sse_frames-sse}
use ai_support_agent_builder.Admin.Playground.{Page, Json, chunks, cleared, run_chat}
use ai_support_agent_builder.Admin.Playground.Stream.{
  Texts, IsReadable, written, shown, run_chat-shown,
}
use ai_support_agent_builder.Admin.Paths.{
  safe_internal_path, dashboard_path, passes, redirects, middleware, is_protected_path, login_path,
}
use ai_support_agent_builder.Admin.Paths.Redirects.{below, landing, opened, middleware-landing}
use ai_support_agent_builder.Admin.Bff.{
  Outside, answered, list_keys, serve, authenticate, Upstream, serve_auth, post_login, login,
  signup,
}
use ai_support_agent_builder.Admin.Forms.{submit_login, submit_signup}
use ai_support_agent_builder.Admin.Forms.Sessions.{form_answer, sent_with, forms-sent}
use ai_support_agent_builder.Admin.Bff.Calls.{SessionBound, serve-SessionBound}
use ai_support_agent_builder.Admin.Documents as Documents
use ai_support_agent_builder.Admin.Documents.{
  UploadItem, Stream, StreamEvent, status_event, done_event, timeout_event, on_events,
}
use ai_support_agent_builder.Admin.Documents.Rows.{held, on_events-held}

words-OneLine : OneLine (codes "status") × OneLine (codes "{}")
unfolding is_line_terminator
words-OneLine = ((refl, (refl, (refl, (refl, (refl, (refl, tt)))))), (refl, (refl, tt)))

parse_sse_frames-sse_example :
    parse_sse_frames (sse (codes "status") (codes "{}") ++ codes "event: d")
    ≡ with_frames
        (record { event = codes "status"; content = codes "{}" } ∷ [])
        (parse_sse_frames (codes "event: d"))
parse_sse_frames-sse_example =
    parse_sse_frames-sse (codes "status") (codes "{}") (codes "event: d") words-OneLine.0
      words-OneLine.1

abbrev page : Page
page = record {
  assistant_id = some (codes "a");
  threshold = finite (pos 3);
  tuned = finite (pos 3);
  load_error = none;
  question = codes "q";
  running = true;
  answer = codes "old";
  answer_err = none;
  grounded = none;
  citations = [];
  debug = none;
  saving = false;
  saved_msg = none;
}

-- Tokens stand for themselves, and there is one `done` text.
abbrev texts : Texts
texts = record { of_token = λ t. t; of_done = λ g cs. codes "{}"; of_error = λ m r. codes "{}" }

abbrev json : Json
json = record { parse_token = λ s. some s; parse_done = λ s. some (true, []) }

abbrev frames : List Frame
frames = Route.ping ∷ token (codes "ab") ∷ token (codes "c") ∷ Route.done true [] ∷ []

frames-IsReadable : All (IsReadable texts json) frames
unfolding is_line_terminator
frames-IsReadable =
    (tt, (((refl, (refl, tt)), refl), (((refl, tt), refl), (((refl, (refl, tt)), refl), tt))))

run_chat-shown_example :
    run_chat json (chunks (written texts frames ∷ [] ∷ [])) page ≡ shown frames (cleared json page)
unfolding sse
run_chat-shown_example =
    run_chat-shown texts json frames (written texts frames ∷ [] ∷ []) page frames-IsReadable refl

documents_protected : is_protected_path (codes "/documents") ≡ true
unfolding is_protected_path
documents_protected = refl

middleware-landing_example :
    (next : Option (List ℕ)) × (middleware false (codes "/documents") ≡ redirects login_path next)
    × (middleware false login_path ≡ passes)
    × (landing (middleware false (codes "/documents")) ≡ opened (codes "/documents"))
    × (middleware true (landing (middleware false (codes "/documents"))) ≡ passes)
middleware-landing_example =
    middleware-landing (codes "/documents") (below b'd' (codes "ocuments") refl) documents_protected

-- An API that answers everything with a token.
abbrev upstream : Upstream
upstream = record { status = 200; json = some (codes "t"); has_body = true }

abbrev api : Outside
api = record {
  call = λ c. answered upstream;
  encode_uri_component = λ s. s;
  signup_issue = codes "Business name is required";
  token_of = λ s. some s;
}

abbrev uuid : List ℕ
uuid = codes "00000000-0000-0000-0000-000000000001"

serve-SessionBound_example :
    SessionBound api (some (codes "jwt")) (serve api (some (codes "jwt")) (list_keys uuid))
serve-SessionBound_example = serve-SessionBound api (some (codes "jwt")) (list_keys uuid)

forms-sent_example :
    ((submit_login
        (some (codes "/settings"))
        (form_answer (serve_auth api (login (some (codes "{}")))).reply)).pushed
      ≡ sent_with
          (safe_internal_path (some (codes "/settings")))
          (serve_auth api (login (some (codes "{}")))).reply.cookie)
    × ((submit_signup (form_answer (serve_auth api (signup (some (codes "{}")))).reply)).pushed
        ≡ sent_with dashboard_path (serve_auth api (signup (some (codes "{}")))).reply.cookie)
forms-sent_example = forms-sent api (some (codes "/settings")) (some (codes "{}"))

logged_in :
    (submit_login
      (some (codes "/settings"))
      (form_answer (serve_auth api (login (some (codes "{}")))).reply)).pushed
    ≡ some (codes "/settings")
unfolding submit_login serve_auth post_login authenticate safe_internal_path starts_with
logged_in = refl

abbrev item : List ℕ → UploadItem
item key = record {
  key = key;
  file_name = codes "f";
  file = [];
  status = codes "UPLOADED";
  error = none;
  doc_id = some (codes "d");
}

abbrev documents_page : Documents.Page
documents_page = record {
  assistant_id = some (codes "a");
  load_error = none;
  items = item (codes "u1") ∷ item (codes "u2") ∷ [];
  streams = record { key = codes "u1"; doc_id = codes "d" } ∷ [];
  documents = [];
  docs_loaded = true;
  docs_error = none;
  deleting_id = none;
  counter = 2;
}

keys_differ : equals (codes "u1") (codes "u2") ≡ false
unfolding equals
keys_differ = refl

on_events-held_example :
    held (codes "u2") (on_events (codes "u1") (timeout_event ∷ []) documents_page)
    ≡ held (codes "u2") documents_page
on_events-held_example =
    on_events-held (codes "u1") (codes "u2") keys_differ (timeout_event ∷ []) documents_page

abbrev failure : List StreamEvent
failure = status_event (some (codes "FAILED", some (codes "This file could not be read."))) ∷ []
