-- ===== src/Admin/Settings.antt =====
-- admin/app/settings/page.tsx: publication and API keys, without the markup and the dates.
pub mod Agree
use ai_support_agent_builder.Prelude.{
  ℕ, List, [], ◌∷◌, keep, Option, none, some, Bool, true, false, ◌&&◌, ◌||◌, not, if◌then◌else◌,
  ◌==◌,
}
use ai_support_agent_builder.Text.{codes, equals, is_empty}

pub record Listed : Type 0 where
  pub id : List ℕ
  pub name : List ℕ
  pub status : List ℕ

-- The keys by their identifiers.
pub record Page : Type 0 where
  pub assistant : Option Listed
  pub load_error : Option (List ℕ)
  pub publishing : Bool
  pub publish_error : Option (List ℕ)
  pub keys : List (List ℕ)
  pub new_key : Option (List ℕ)
  pub creating : Bool
  pub revoking : Option (List ℕ)
  pub keys_error : Option (List ℕ)

-- What a `fetch` brings that is only asked for its success, and for its status.
pub data Answer : Type 0 where
  unreachable : Answer
  answered : Bool → ℕ → Answer

-- `loadKeys`: `none` where the answer is no list.
unfoldable pub load_keys : Option (List (List ℕ)) → Page → Page
load_keys none page = record page { keys_error = some (codes "Could not load API keys.") }
load_keys (some ids) page = record page { keys = ids }

unfoldable pub on_assistants : Option (List Listed) → Page → Page
on_assistants none page = record page { load_error = some (codes "Could not load your assistant.") }
on_assistants (some []) page = record page {
  load_error = some (codes "No assistant found for your account.");
}
on_assistants (some (a ∷ more)) page = record page { assistant = some a }

-- The status that `togglePublish` asks for.
unfoldable pub next_status : List ℕ → List ℕ
unfolding equals
next_status status = if equals status (codes "PUBLISHED") then codes "DRAFT" else codes "PUBLISHED"

abbrev pub publish_failed : Page → Page
publish_failed page = record page {
  publish_error = some (codes "Could not update publish state. Try again.");
  publishing = false;
}

abbrev pub toggled : Listed → Answer → Page → Page
toggled a unreachable page = publish_failed page
toggled a (answered ok status) page =
    if ok
    then record page {
      assistant = some (record a { status = next_status a.status });
      publish_error = none;
      publishing = false;
    }
    else publish_failed page

abbrev pub with_assistant : Option Listed → Page → (Listed → Page) → Page
with_assistant none page f = page
with_assistant (some a) page f = f a

unfoldable pub toggle_publish : Answer → Page → Page
unfolding next_status
toggle_publish answer page = with_assistant page.assistant page λ a. toggled a answer page

-- The answer to a new key: an exception, or its success with the members of the body.
pub data KeyAnswer : Type 0 where
  unreachable : KeyAnswer
  answered : Bool → Option (List ℕ) → Option (List ℕ) → KeyAnswer

abbrev pub create_failed : Page → Page
create_failed page = record page {
  keys_error = some (codes "Could not create a key.");
  creating = false;
}

abbrev pub created : KeyAnswer → Page → Page
created (answered ok (some id) (some key)) page =
    if ok && (not (is_empty key) && not (is_empty id))
    then record page {
      new_key = some key;
      keys = id ∷ page.keys;
      keys_error = none;
      creating = false;
    }
    else create_failed page
created (answered ok none key) page = create_failed page
created (answered ok (some id) none) page = create_failed page
created unreachable page = create_failed page

unfoldable pub create_key : KeyAnswer → Page → Page
create_key answer page = with_assistant page.assistant page λ a. created answer page

abbrev pub revoke_failed : Page → Page
revoke_failed page = record page { keys_error = some (codes "Revoke failed."); revoking = none }

abbrev pub revoked : List ℕ → Answer → Page → Page
revoked key unreachable page = revoke_failed page
revoked key (answered ok status) page =
    if ok || status == 404
    then record page { keys = keep (λ k. not (equals k key)) page.keys; revoking = none }
    else revoke_failed page

-- `revokeKey`, with what the visitor confirms.
unfoldable pub revoke_key : Bool → List ℕ → Answer → Page → Page
unfolding equals
revoke_key confirmed key answer page =
    with_assistant page.assistant page λ a. if not confirmed then page else revoked key answer page
