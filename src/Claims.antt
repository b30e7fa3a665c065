-- ===== src/Claims.antt =====
-- The claims of a verified token (api/src/auth/tenant-token.ts) and api/src/middleware.
use ai_support_agent_builder.Prelude.{ℕ, List, Option, none, some, Bool, false, ◌&&◌, not}
use ai_support_agent_builder.Text.{is_empty}

pub record TenantClaims : Type 0 where
  pub tenant_id : List ℕ
  pub user_id : Option (List ℕ)
  pub assistant_id : Option (List ℕ)

-- `Boolean(s)` of an optional text.
unfoldable pub is_truthy : Option (List ℕ) → Bool
is_truthy none = false
is_truthy (some s) = not (is_empty s)

unfoldable pub is_admin_session : TenantClaims → Bool
unfolding is_truthy
is_admin_session claims = is_truthy claims.user_id && not (is_truthy claims.assistant_id)
