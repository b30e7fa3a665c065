-- ===== src/Admin/Forms.antt =====
-- admin/app/login/page.tsx, admin/app/signup/page.tsx and admin/app/dashboard/LogoutButton.tsx: what the
-- forms and the button do, without the markup.
pub mod Sessions
use ai_support_agent_builder.Prelude.{ℕ, List, Option, none, some, Bool, true, false, if◌then◌else◌}
use ai_support_agent_builder.Text.{codes}
use ai_support_agent_builder.Admin.Paths.{dashboard_path, login_path, safe_internal_path}

-- What the page shows, and the path to which it has sent the visitor.
pub record Form : Type 0 where
  pub error : Option (List ℕ)
  pub loading : Bool
  pub pushed : Option (List ℕ)

-- An exception, or the success of an answer with `error` of its body.
pub data FormAnswer : Type 0 where
  unreachable : FormAnswer
  answered : Bool → Option (List ℕ) → FormAnswer

abbrev pub error_or : List ℕ → Option (List ℕ) → List ℕ
error_or message none = message
error_or message (some s) = s

abbrev pub submitted : List ℕ → List ℕ → FormAnswer → Form
submitted path message unreachable = record {
  error = some (codes "Cannot reach the server. Please try again.");
  loading = false;
  pushed = none;
}
submitted path message (answered ok error) =
    if ok
    then record { error = none; loading = true; pushed = some path }
    else record { error = some (error_or message error); loading = false; pushed = none }

-- `onSubmit` of the login, with the parameter `next` of the page's address.
unfoldable pub submit_login : Option (List ℕ) → FormAnswer → Form
unfolding safe_internal_path
submit_login next answer = submitted (safe_internal_path next) (codes "Login failed.") answer

-- `onSubmit` of the signup.
unfoldable pub submit_signup : FormAnswer → Form
submit_signup answer = submitted dashboard_path (codes "Sign up failed.") answer

-- `logout`: whatever the answer is, the visitor goes to the login; the button is free again.
pub record Button : Type 0 where
  pub busy : Bool
  pub pushed : Option (List ℕ)

unfoldable pub logout : FormAnswer → Button
logout answer = record { busy = false; pushed = some login_path }
