-- ===== src/Ai/Engine/Laws/Tests.antt =====
-- An engine without a cache, over the amount that was spent today.
use sentinel_api_platform.Prelude.{ℕ, ◌+◌, ◌≡◌, refl, ◌≤◌, none, [], pos, arith}
use sentinel_api_platform.Effects.{ok}
use sentinel_api_platform.Ai.Types.{ProviderResponse}
use sentinel_api_platform.Ai.Guard.{UsageStore, allow, allow_month, note_usage}
use sentinel_api_platform.Ai.Engine.{Engine, settle, ask, allowed, call}
use sentinel_api_platform.Ai.Engine.Laws.{Accounts, Spends, call-Spends}

abbrev store : UsageStore ℕ
store = record {
  record_usage = λ m n. (ok tt, n + m.cost);
  get_daily_usage = λ n. (ok n, n);
  get_monthly_usage = λ n. (ok n, n);
}

abbrev brief : ProviderResponse
brief = record { content = "{}"; model = "gpt-4o"; input_tokens = 10; output_tokens = 2 }

abbrev engine : Engine ℕ
engine = record {
  provider = λ q n. (ok brief, n);
  cache = none;
  budget = record { store = store; daily_limit = 5000; monthly_limit = 9000 };
  max_tokens = pos 256;
  temperature = "0.20";
  new_id = λ n. ("u1", n);
}

abbrev spent : ℕ → ℕ
spent n = n

n_le : (n : ℕ) → n ≤ n
n_le n = omega arith

accounts : Accounts engine spent
accounts = record {
  cache_read = λ q n. refl;
  cache_write = λ q r n. refl;
  asked = λ q n. refl;
  drawn = λ n. refl;
  recorded = λ m n. n_le (n + m.cost);
  read_day = λ n. refl;
  read_month = λ n. refl;
}

call-Spends_example : Spends engine spent accounts 40 (call engine "completion" "be brief" [] 40)
call-Spends_example = call-Spends engine spent accounts "completion" "be brief" [] 40

call_run : call engine "completion" "be brief" [] 40 ≡ (ok brief, 4540)
unfolding call allowed allow allow_month ask settle note_usage
call_run = refl
