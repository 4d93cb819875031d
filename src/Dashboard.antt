-- ===== src/Dashboard.antt =====
-- backend/internal/service/dashboard_service.go: the statistics of the dashboard. A count that fails
-- is logged, and shown as what the store returned with the error. The times of creation are left out.
use sentinel_api_platform.Prelude.{ℕ, String, Option, List}
use sentinel_api_platform.Errs.{Error}

pub record RunSummary : Type 0 where
  pub id : String
  pub name : String
  pub status : String
  pub passed : ℕ
  pub failed : ℕ
  pub errored : ℕ
  pub skipped : ℕ
  pub total : ℕ

pub record DashboardStats : Type 0 where
  pub projects : ℕ
  pub apis : ℕ
  pub mock_rules : ℕ
  pub test_cases : ℕ
  pub recent_runs : List RunSummary
  pub status_breakdown : List (String × ℕ)

-- A Go call that returns a value along with its error.
abbrev pub Query : Type 0 → Type 0 → Type 0
Query S A = S → (A × Option Error) × S

pub record DashboardStore (S : Type 0) : Type 0 where
  pub count_projects : Query S ℕ
  pub count_apis : Query S ℕ
  pub count_mock_rules : Query S ℕ
  pub count_test_cases : Query S ℕ
  pub list_recent_runs : ℕ → Query S (List RunSummary)
  pub count_results_by_status : Query S (List (String × ℕ))

-- `GetStats`, whose own error is always nil
pub get_stats : {S : Type 0} → DashboardStore S → S → DashboardStats × S
get_stats store s =
    let ((projects, _), s₁) = store.count_projects s in
    let ((apis, _), s₂) = store.count_apis s₁ in
    let ((rules, _), s₃) = store.count_mock_rules s₂ in
    let ((cases, _), s₄) = store.count_test_cases s₃ in
    let ((runs, _), s₅) = store.list_recent_runs 10 s₄ in
    let ((breakdown, _), s₆) = store.count_results_by_status s₅ in
    (
      record {
        projects = projects;
        apis = apis;
        mock_rules = rules;
        test_cases = cases;
        recent_runs = runs;
        status_breakdown = breakdown;
      },
      s₆,
    )
