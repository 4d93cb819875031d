-- ===== src/Ai/Guard.antt =====
-- backend/internal/ai/guard.go: the budgets of a day and of a month. Amounts are numbers of
-- hundred-millionths of a dollar; the rounding of float64 sums is left out.
pub mod Laws
use sentinel_api_platform.Prelude.{ℕ, Bool, not, leb}
use sentinel_api_platform.Errs.{
  Error, sentinel, wrapped, daily_budget_exceeded, monthly_budget_exceeded,
}
use sentinel_api_platform.Effects.{Result, ok, err, Call, guard, ◌>>=◌, ◌>>◌, map_err, wrap}
use sentinel_api_platform.Ai.Types.{AiUsage}

-- The interface `UsageStore`.
pub record UsageStore (S : Type 0) : Type 0 where
  pub record_usage : AiUsage → Call S (Unit {0})
  pub get_daily_usage : Call S ℕ
  pub get_monthly_usage : Call S ℕ

pub record Guard (S : Type 0) : Type 0 where
  pub store : UsageStore S
  pub daily_limit : ℕ
  pub monthly_limit : ℕ

module _ {S : Type 0} (g : Guard S) where
  -- the second check
  unfoldable pub allow_month : Call S (Unit {0})
  allow_month = do
    monthly ← map_err (wrap "guard: check monthly usage: ") g.store.get_monthly_usage
    guard (not (leb g.monthly_limit monthly)) (sentinel monthly_budget_exceeded)

  unfoldable pub allow : Call S (Unit {0})
  unfolding allow_month
  allow = do
    daily ← map_err (wrap "guard: check daily usage: ") g.store.get_daily_usage
    guard (not (leb g.daily_limit daily)) (sentinel daily_budget_exceeded)
    allow_month

  unfoldable pub note_usage : AiUsage → Call S (Unit {0})
  note_usage m = g.store.record_usage m

  unfoldable pub daily_usage : Call S ℕ
  daily_usage = g.store.get_daily_usage

  unfoldable pub monthly_usage : Call S ℕ
  monthly_usage = g.store.get_monthly_usage
