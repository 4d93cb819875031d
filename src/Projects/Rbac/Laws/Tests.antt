-- ===== src/Projects/Rbac/Laws/Tests.antt =====
-- The theorem on the middleware at a resolver that knows one viewer.
use sentinel_api_platform.Prelude.{ℕ, ◌≡◌, refl, String, ◌==◌, [], ◌∷◌, if◌then◌else◌}
use sentinel_api_platform.Effects.{ok, Call}
use sentinel_api_platform.Projects.Rbac.{goes_on, require_project_role}

abbrev roles : String → String → Call ℕ String
roles pid user n = (if user == "bob" then ok "viewer" else ok "", n)

admitted_run : (require_project_role roles ("admin" ∷ "viewer" ∷ []) "bob" "p1" 0).0 ≡ goes_on
unfolding require_project_role
admitted_run = refl
