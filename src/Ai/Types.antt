-- ===== src/Ai/Types.antt =====
-- The requests and the answers of backend/internal/ai/provider.go, the two providers, the results
-- of the three functions, and the rows of backend/internal/model/ai_usage.go.
use sentinel_api_platform.Prelude.{ℕ, ℤ, String, List}
use sentinel_api_platform.Errs.{sentinel, ai_disabled}
use sentinel_api_platform.Effects.{Call, throw}

pub record Message : Type 0 where
  pub role : String
  pub content : String

-- The temperature, a float64, is kept by the text that the format %.2f prints.
pub record ProviderRequest : Type 0 where
  pub system_prompt : String
  pub messages : List Message
  pub max_tokens : ℤ
  pub temperature : String
  pub function_name : String

pub record ProviderResponse : Type 0 where
  pub content : String
  pub model : String
  pub input_tokens : ℕ
  pub output_tokens : ℕ

-- `Provider.Complete`
abbrev pub Provider : Type 0 → Type 0
Provider S = ProviderRequest → Call S ProviderResponse

-- A cost is a number of hundred-millionths of a dollar, to which `estimateCost` rounds.
pub record AiUsage : Type 0 where
  pub id : String
  pub model : String
  pub function_name : String
  pub prompt_tokens : ℕ
  pub completion_tokens : ℕ
  pub cost : ℕ

-- `NoopProvider`, which also stands for the remote providers that are not written yet
abbrev pub noop_provider : {S : Type 0} → Provider S
noop_provider q = throw (sentinel ai_disabled)
