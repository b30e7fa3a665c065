-- ===== src/Admin/Playground.antt =====
-- admin/app/playground/page.tsx: the state of the page and its handlers, without the markup.
pub mod Tuner
pub mod Stream
use ai_support_agent_builder.Prelude.{
  ℕ, List, [], ◌∷◌, ◌++◌, Option, none, some, Bool, true, false, ◌||◌, not, if◌then◌else◌,
}
use ai_support_agent_builder.Text.{codes, equals, trim, is_empty}
use ai_support_agent_builder.Number.{Double, lt_double}
use ai_support_agent_builder.Chat.Citations.{Citation}
use ai_support_agent_builder.Playground.{DebugView}
use ai_support_agent_builder.Admin.Sse.{SseFrame, parse_sse_frames}

-- What a fetch of the browser brings: an exception, a status that is not ok, or the body (`none`
-- where it cannot be read).
pub data Fetch {ℓ} (A : Type ℓ) : Type ℓ where
  unreachable not_ok unreadable : Fetch A
  fetched : A → Fetch A

pub record Page : Type 0 where
  pub assistant_id : Option (List ℕ)
  pub threshold : Double
  pub tuned : Double
  pub load_error : Option (List ℕ)
  pub question : List ℕ
  pub running : Bool
  pub answer : List ℕ
  pub answer_err : Option (List ℕ)
  pub grounded : Option Bool
  pub citations : List Citation
  pub debug : Option DebugView
  pub saving : Bool
  pub saved_msg : Option (List ℕ)

-- An assistant of the list that the page reads.
pub record Listed : Type 0 where
  pub id : List ℕ
  pub refusal_threshold : Double

-- The list of the tenant's assistants arrives.
unfoldable pub on_assistants : Fetch (List Listed) → Page → Page
on_assistants (fetched []) page = record page {
  load_error = some (codes "No assistant found for your account.");
}
on_assistants (fetched (a ∷ more)) page = record page {
  assistant_id = some a.id;
  threshold = a.refusal_threshold;
  tuned = a.refusal_threshold;
}
on_assistants unreachable page = record page {
  load_error = some (codes "Could not load your assistant.");
}
on_assistants not_ok page = record page {
  load_error = some (codes "Could not load your assistant.");
}
on_assistants unreadable page = record page {
  load_error = some (codes "Could not load your assistant.");
}

-- `runRetrieve`, when its answer is there.
unfoldable pub run_retrieve : Fetch DebugView → Page → Page
run_retrieve unreachable page = record page { debug = none }
run_retrieve not_ok page = record page { debug = none }
run_retrieve unreadable page = record page { debug = none }
run_retrieve (fetched d) page = record page {
  debug = some d;
  threshold = d.threshold;
  tuned = d.threshold;
}

-- `JSON.parse` on the data of the frames: none where it throws, or where what is read from it does.
pub record Json : Type 0 where
  pub parse_token : List ℕ → Option (List ℕ)
  pub parse_done : List ℕ → Option (Bool × List Citation)

-- What a fetch of the stream brings: no response, no body, or the chunks that are read before the
-- end or an exception.
pub data StreamFetch : Type 0 where
  no_response : StreamFetch
  no_body : StreamFetch
  chunks : List (List ℕ) → StreamFetch

-- The answer so far (`acc`), and the page.
pub record Reading : Type 0 where
  pub acc : List ℕ
  pub page : Page

abbrev pub on_token : Option (List ℕ) → Reading → Reading
on_token none r = r
on_token (some t) r = record { acc = r.acc ++ t; page = record r.page { answer = r.acc ++ t } }

abbrev pub on_done : Option (Bool × List Citation) → Reading → Reading
on_done none r = r
on_done (some (g, cs)) r = record r { page = record r.page { grounded = some g; citations = cs } }

module _ (json : Json) where
  unfoldable pub on_frame : SseFrame → Reading → Reading
  unfolding equals
  on_frame f r =
      if equals f.event (codes "token")
      then on_token (json.parse_token f.content) r
      else if equals f.event (codes "done")
      then on_done (json.parse_done f.content) r
      else if equals f.event (codes "error")
      then record r { page = record r.page { answer_err = some (codes "Generation failed.") } }
      else r

  unfoldable pub on_frames : List SseFrame → Reading → Reading
  unfolding on_frame
  on_frames [] r = r
  on_frames (f ∷ fs) r = on_frames fs (on_frame f r)

  -- The `for (;;)` loop over the chunks.
  unfoldable pub read_loop : List ℕ → List (List ℕ) → Reading → Reading
  unfolding parse_sse_frames on_frames
  read_loop buffer [] r = r
  read_loop buffer (chunk ∷ more) r =
      let p = parse_sse_frames (buffer ++ chunk) in read_loop p.rest more (on_frames p.frames r)

  abbrev pub cleared : Page → Page
  cleared page = record page { answer = []; answer_err = none; grounded = none; citations = [] }

  -- `runChat`
  unfoldable pub run_chat : StreamFetch → Page → Page
  unfolding read_loop
  run_chat no_response page = record (cleared page) {
    answer_err = some (codes "Cannot reach the server.");
  }
  run_chat no_body page = record (cleared page) { answer_err = some (codes "Chat failed.") }
  run_chat (chunks cs) page = (read_loop [] cs (record { acc = []; page = cleared page })).page

abbrev pub with_assistant : Option (List ℕ) → Page → (List ℕ → Page) → Page
with_assistant none page f = page
with_assistant (some id) page f = f id

-- `onSubmit`, with what its two calls do to the page.
unfoldable pub on_submit : (List ℕ → List ℕ → Page → Page) → Page → Page
on_submit calls page =
    let q = trim page.question in
    with_assistant page.assistant_id page λ id.
      if is_empty id || (is_empty q || page.running)
      then page
      else record (calls id q (record page { running = true })) { running = false }

-- `saveThreshold`: the slider's value at the call, and what the `PATCH` brings. The body of an
-- answer is not read.
abbrev pub saved : Double → Fetch (Unit {0}) → Page → Page
saved tuned (fetched u) page = record page {
  threshold = tuned;
  saved_msg = some (codes "Saved.");
  saving = false;
}
saved tuned unreadable page = record page {
  threshold = tuned;
  saved_msg = some (codes "Saved.");
  saving = false;
}
saved tuned not_ok page = record page { saved_msg = some (codes "Save failed."); saving = false }
saved tuned unreachable page = record page {
  saved_msg = some (codes "Save failed.");
  saving = false;
}

unfoldable pub save_threshold : Double → Fetch (Unit {0}) → Page → Page
save_threshold tuned answer page =
    with_assistant page.assistant_id page
      λ id. if is_empty id then page else saved tuned answer page

-- `tunedRefuse`, from the best score that the page has.
unfoldable pub tuned_refuse : Option Double → Double → Bool
unfolding lt_double
tuned_refuse none tuned = true
tuned_refuse (some top) tuned = lt_double top tuned
