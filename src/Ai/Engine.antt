-- ===== src/Ai/Engine.antt =====
-- backend/internal/ai/engine.go: a call of the provider, behind the cache and the guard.
pub mod Laws
use sentinel_api_platform.Prelude.{
  ℕ, ℤ, ◌+◌, ◌*◌, String, ◌==◌, Option, none, some, List, if◌then◌else◌,
}
use sentinel_api_platform.Errs.{Error}
use sentinel_api_platform.Effects.{
  Result, ok, err, Call, pure, draw, ignore, ◌>>=◌, ◌>>◌, map_err, wrap,
}
use sentinel_api_platform.Ai.Types.{Message, ProviderRequest, ProviderResponse, Provider, AiUsage}
use sentinel_api_platform.Ai.Guard.{Guard, allow, note_usage}
use sentinel_api_platform.Ai.Cache.{Cache, cache_get, cache_set}

-- `modelPricing`: the price of a token read and of a token written, in hundred-millionths of a
-- dollar. A model that is not in the table has the price of gpt-4o.
abbrev pub pricing : String → ℕ × ℕ
pricing model =
    if model == "mock"
    then (0, 0)
    else if model == "claude-sonnet-4-6"
    then (300, 1500)
    else if model == "claude-opus-4-8"
    then (1500, 7500)
    else if model == "gpt-4o"
    then (250, 1000)
    else if model == "gpt-4o-mini"
    then (15, 60)
    else (250, 1000)

abbrev pub estimate_cost : String → ℕ → ℕ → ℕ
estimate_cost model in_tokens out_tokens =
    let (input, output) = pricing model in in_tokens * input + out_tokens * output

pub record Engine (S : Type 0) : Type 0 where
  pub provider : Provider S
  -- `nil` where there is no cache
  pub cache : Option (Cache S)
  pub budget : Guard S
  pub max_tokens : ℤ
  pub temperature : String
  -- `id.New`
  pub new_id : S → String × S

module _ {S : Type 0} (e : Engine S) where
  abbrev pub request_of : String → String → List Message → ProviderRequest
  request_of function_name prompt messages = record {
    system_prompt = prompt;
    messages = messages;
    max_tokens = e.max_tokens;
    temperature = e.temperature;
    function_name = function_name;
  }

  -- the lookup in the cache, where there is one
  abbrev pub cached : ProviderRequest → S → Option ProviderResponse × S
  cached q s = elim e.cache [ none ↦ (none, s) | some c ↦ cache_get c q s ]

  abbrev pub keep_answer : ProviderRequest → ProviderResponse → Call S (Unit {0})
  keep_answer q resp s = elim e.cache [ none ↦ (ok tt, s) | some c ↦ cache_set c q resp s ]

  abbrev pub usage_of : String → ProviderRequest → ProviderResponse → AiUsage
  usage_of id q resp = record {
    id = id;
    model = resp.model;
    function_name = q.function_name;
    prompt_tokens = resp.input_tokens;
    completion_tokens = resp.output_tokens;
    cost = estimate_cost resp.model resp.input_tokens resp.output_tokens;
  }

  -- what follows an answer: neither a failure of the cache nor one of the record, which is only
  -- logged, fails the call
  pub settle : ProviderRequest → ProviderResponse → Call S ProviderResponse
  settle q resp = do
    ignore (keep_answer q resp)
    id ← draw e.new_id
    ignore (note_usage e.budget (usage_of id q resp))
    pure resp

  pub ask : ProviderRequest → Call S ProviderResponse
  ask q = do resp ← map_err (wrap "ai: provider: ") (e.provider q); settle q resp

  pub allowed : ProviderRequest → Call S ProviderResponse
  allowed q = allow e.budget >> ask q

  unfoldable pub call : String → String → List Message → Call S ProviderResponse
  call function_name prompt messages s =
      let q = request_of function_name prompt messages in
      let (hit, s₁) = cached q s in elim hit [ some resp ↦ (ok resp, s₁) | none ↦ allowed q s₁ ]
