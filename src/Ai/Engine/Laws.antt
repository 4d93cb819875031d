-- ===== src/Ai/Engine/Laws.antt =====
-- What a call of the engine may spend.
mod Tests
use sentinel_api_platform.Prelude.{
  ℕ, ◌+◌, ◌≡◌, refl, sym, ap, ◌∙◌, ◌<◌, ◌≤◌, ◌⊎◌, inl, inr, String, Bool, true, false, not, leb,
  Option, none, some, List, Bool-cases, Option-cases, arith,
}
use sentinel_api_platform.Errs.{
  Error, sentinel, wrapped, daily_budget_exceeded, monthly_budget_exceeded,
}
use sentinel_api_platform.Effects.{
  Result, ok, err, Call, pure, guard, draw, ignore, ◌>>=◌, ◌>>◌, map_err, wrap, Result-cases,
  map_err-state, bind-found,
}
use sentinel_api_platform.Ai.Types.{Message, ProviderRequest, ProviderResponse, AiUsage}
use sentinel_api_platform.Ai.Guard.{UsageStore, Guard, allow, allow_month, note_usage}
use sentinel_api_platform.Ai.Guard.Laws.{leb-false}
use sentinel_api_platform.Ai.Engine.{
  Engine, estimate_cost, request_of, cached, keep_answer, usage_of, settle, ask, allowed, call,
}

abbrev pub cost_of : ProviderResponse → ℕ
cost_of r = estimate_cost r.model r.input_tokens r.output_tokens

-- Where one day is looked at: `total` is what was recorded on it, which is what the store reads and
-- what only a record changes, by its cost or, where it fails, by nothing.
pub record Accounts {S : Type 0} (e : Engine S) (total : S → ℕ) : Type 0 where
  pub cache_read : (q : ProviderRequest) (s : S) → total (cached e q s).1 ≡ total s
  pub cache_write :
      (q : ProviderRequest) (r : ProviderResponse) (s : S) → total (keep_answer e q r s).1 ≡ total s
  pub asked : (q : ProviderRequest) (s : S) → total (e.provider q s).1 ≡ total s
  pub drawn : (s : S) → total (e.new_id s).1 ≡ total s
  pub recorded :
      (m : AiUsage) (s : S) → total (e.budget.store.record_usage m s).1 ≤ total s + m.cost
  pub read_day : (s : S) → e.budget.store.get_daily_usage s ≡ (ok (total s), s)
  pub read_month : (s : S) → total (e.budget.store.get_monthly_usage s).1 ≡ total s

module _ {S : Type 0} (e : Engine S) (total : S → ℕ) (accounts : Accounts e total) where
  -- What happened between the total `n` and the end of a call: nothing was spent, or the day's
  -- budget was not used up and the call gave an answer whose cost at most was spent.
  pub data Spends (n : ℕ) (x : Result ProviderResponse × S) : Type 0 where
    nothing : total x.1 ≡ n → Spends n x
    one_answer :
        (r : ProviderResponse)
        → x.0 ≡ ok r
        → n < e.budget.daily_limit
        → total x.1 ≤ n + cost_of r
        → Spends n x

  settle-total :
      (q : ProviderRequest) (r : ProviderResponse) (s : S)
      → ((settle e q r s).0 ≡ ok r) × (total (settle e q r s).1 ≤ total s + cost_of r)
  unfolding settle note_usage
  settle-total q r s =
      let s₁ = (keep_answer e q r s).1 in
      let s₂ = (e.new_id s₁).1 in
      let same : total s₂ ≡ total s = accounts.drawn s₁ ∙ accounts.cache_write q r s in
      (refl, rw same at (accounts.recorded (usage_of e (e.new_id s₁).0 q r) s₂))

  bind-Spends :
      {A : Type 0} (n : ℕ) (m : Call S A) (k : A → Call S ProviderResponse) (s : S)
      → total (m s).1 ≡ n
      → ((a : A) → (m s).0 ≡ ok a → Spends n (k a (m s).1))
      → Spends n ((m >>= k) s)
  bind-Spends n m k s same h = elim (Result-cases (m s).0) [
    | inl (a, e) ↦ rw (e, ◌>>=◌) (h a e)
    | inr (why, e) ↦ rw (e, ◌>>=◌) (nothing same)
  ]

  ask-Spends :
      (n : ℕ) (q : ProviderRequest) (s : S)
      → total s ≡ n
      → n < e.budget.daily_limit
      → Spends n (ask e q s)
  unfolding ask
  ask-Spends n q s same below =
      let asking = map_err (wrap "ai: provider: ") (e.provider q) in
      let frame : total (asking s).1 ≡ n =
        ap total (map_err-state (wrap "ai: provider: ") (e.provider q) s)
        ∙ accounts.asked q s
        ∙ same in
      bind-Spends n asking (settle e q) s frame (λ r _.
        let (done, spent) = settle-total q r (asking s).1 in
        one_answer r done below (rw frame at spent))

  month-total : (s : S) → total (allow_month e.budget s).1 ≡ total s
  unfolding allow_month
  month-total s =
      let reading =
        map_err (wrap "guard: check monthly usage: ") e.budget.store.get_monthly_usage in
      let frame : total (reading s).1 ≡ total s =
        ap total
          (map_err-state (wrap "guard: check monthly usage: ") e.budget.store.get_monthly_usage s)
        ∙ accounts.read_month s in
      elim (Result-cases (reading s).0) [
        | inr (why, e₁) ↦ rw (e₁, ◌>>=◌) frame
        | inl (m, e₁) ↦
            rw (e₁, ◌>>=◌)
              (elim (Bool-cases (leb e.budget.monthly_limit m)) [
                | inl t ↦ rw t frame
                | inr f ↦ rw f frame
              ])
      ]

  -- The guard changes no total, and lets through only below the daily limit.
  allow-total :
      (s : S)
      → (total (allow e.budget s).1 ≡ total s)
        × ((allow e.budget s).0 ≡ ok tt → total s < e.budget.daily_limit)
  unfolding allow
  allow-total s =
      let checked : allow e.budget s ≡ _ =
        bind-found (wrap "guard: check daily usage: ") e.budget.store.get_daily_usage
          (λ n.
            guard (not (leb e.budget.daily_limit n)) (sentinel daily_budget_exceeded)
            >> allow_month e.budget)
          s (total s) (accounts.read_day s) in
      elim (Bool-cases (leb e.budget.daily_limit (total s))) [
        | inl t ↦ rw checked (rw t (refl, λ h. ground arith))
        | inr f ↦ rw checked (rw f (month-total s, λ h. ground arith))
      ]

  -- Where the accounts of a day keep their laws, a call of the engine spends nothing of the day's budget, or it gives an answer and spends at
  -- most the cost of that one answer, and then the budget was not used up before it: whether the
  -- answer comes from the cache, the guard refuses, or the provider, the cache or the record fails.
  pub call-Spends :
      (function_name prompt : String) (messages : List Message) (s : S)
      → Spends (total s) (call e function_name prompt messages s)
  unfolding call allowed
  call-Spends function_name prompt messages s =
      let q = request_of e function_name prompt messages in
      let s₁ = (cached e q s).1 in
      let same : total s₁ ≡ total s = accounts.cache_read q s in
      let (frame, below) = allow-total s₁ in
      elim (Option-cases (cached e q s).0) [
        | inr (r, hit) ↦ rw (hit, call) (nothing same)
        | inl miss ↦
            rw (miss, call)
              (bind-Spends (total s) (allow e.budget) (λ _. ask e q) s₁ (frame ∙ same)
                (λ _ h.
                  ask-Spends (total s) q (allow e.budget s₁).1 (frame ∙ same)
                    (rw same at (below h))))
      ]
