-- ===== src/Admin/Paths.antt =====
-- admin/lib/auth.ts and admin/middleware.ts: which pages need a session, and where a visitor goes.
pub mod Redirects
use ai_support_agent_builder.Prelude.{
  ℕ, List, [], ◌∷◌, Option, none, some, Bool, true, false, ◌&&◌, ◌||◌, not, if◌then◌else◌, ◌==◌,
}
use ai_support_agent_builder.Text.{codes, equals, starts_with, is_empty}

abbrev pub login_path : List ℕ
login_path = codes "/login"

abbrev pub signup_path : List ℕ
signup_path = codes "/signup"

abbrev pub dashboard_path : List ℕ
dashboard_path = codes "/dashboard"

-- `PUBLIC_PATHS.has`
abbrev pub is_public : List ℕ → Bool
is_public path = equals path login_path || equals path signup_path

unfoldable pub is_protected_path : List ℕ → Bool
unfolding equals starts_with
is_protected_path path =
    if is_public path
    then false
    else if starts_with path (codes "/api/")
    then false
    else if starts_with path (codes "/_next")
    then false
    else if equals path (codes "/favicon.ico")
    then false
    else true

unfoldable pub safe_internal_path : Option (List ℕ) → List ℕ
unfolding starts_with
safe_internal_path none = dashboard_path
safe_internal_path (some next) =
    if not (is_empty next) && (starts_with next (codes "/") && not (starts_with next (codes "//")))
    then next
    else dashboard_path

unfoldable pub map_auth_error : ℕ → List ℕ
map_auth_error status =
    if status == 400
    then codes "Please check the form and try again."
    else if status == 401
    then codes "Incorrect email or password."
    else if status == 409
    then codes "An account with that email already exists."
    else codes "Something went wrong. Please try again."

-- What the middleware does: a redirect to a path, with the parameter `next`, or the page itself.
pub data Outcome : Type 0 where
  passes : Outcome
  redirects : List ℕ → Option (List ℕ) → Outcome

-- The search of a page that is redirected to the dashboard is kept, and plays no part here.
unfoldable pub middleware : Bool → List ℕ → Outcome
unfolding is_protected_path equals
middleware authed path =
    if is_protected_path path && not authed
    then redirects login_path (if equals path (codes "/") then none else some path)
    else if is_public path && authed
    then redirects dashboard_path none
    else passes
