-- ===== src/Ai/Guard/Laws.antt =====
-- When the guard lets a call through.
use sentinel_api_platform.Prelude.{ℕ, ◌≡◌, refl, ◌∙◌, ◌<◌, ◌≤◌, true, false, not, leb, arith}
use sentinel_api_platform.Errs.{sentinel, daily_budget_exceeded, monthly_budget_exceeded}
use sentinel_api_platform.Effects.{ok, err, Call, guard, ◌>>◌, wrap, bind-found}
use sentinel_api_platform.Ai.Guard.{Guard, allow, allow_month}

pub leb-true : (a b : ℕ) → a ≤ b → leb a b ≡ true
leb-true a b h = ground arith

pub leb-false : (a b : ℕ) → b < a → leb a b ≡ false
leb-false a b h = ground arith

module _ {S : Type 0} (g : Guard S) (s : S) (d m : ℕ) (day : g.store.get_daily_usage s ≡ (ok d, s))
    (month : g.store.get_monthly_usage s ≡ (ok m, s)) where
  abbrev pub day_check : ℕ → Call S (Unit {0})
  day_check n = guard (not (leb g.daily_limit n)) (sentinel daily_budget_exceeded) >> allow_month g

  abbrev pub month_check : ℕ → Call S (Unit {0})
  month_check n = guard (not (leb g.monthly_limit n)) (sentinel monthly_budget_exceeded)

  month-checked : allow_month g s ≡ month_check m s
  unfolding allow_month
  month-checked =
      bind-found (wrap "guard: check monthly usage: ") g.store.get_monthly_usage month_check s m
        month

  pub allow-checked : allow g s ≡ day_check d s
  unfolding allow
  allow-checked =
      bind-found (wrap "guard: check daily usage: ") g.store.get_daily_usage day_check s d day

  -- Where the two sums can be read, and reading them changes nothing, the guard lets a call through
  -- exactly where both are below their limits; else it answers with the error of the first budget
  -- that is used up. It changes nothing.
  pub allow_cases :
      ((d < g.daily_limit) → (m < g.monthly_limit) → allow g s ≡ (ok tt, s))
      × ((g.daily_limit ≤ d) → allow g s ≡ (err (sentinel daily_budget_exceeded), s))
      × ((d < g.daily_limit)
          → (g.monthly_limit ≤ m)
          → allow g s ≡ (err (sentinel monthly_budget_exceeded), s))
  allow_cases = (
    λ h k.
        allow-checked
        ∙ rw (leb-false g.daily_limit d h)
            (month-checked ∙ rw (leb-false g.monthly_limit m k) refl),
    λ h. allow-checked ∙ rw (leb-true g.daily_limit d h) refl,
    λ h k.
        allow-checked
        ∙ rw (leb-false g.daily_limit d h) (month-checked ∙ rw (leb-true g.monthly_limit m k) refl),
  )
