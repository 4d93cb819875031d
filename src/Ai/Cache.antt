-- ===== src/Ai/Cache.antt =====
-- backend/internal/ai/cache.go: the answers of providers in Redis, by the hash of the prompt.
use sentinel_api_platform.Prelude.{ℤ, String, Option, none, List, [], ◌∷◌}
use Prim.Native.String.{◌++◌}
use sentinel_api_platform.Effects.{Result, ok, err, Call}
use sentinel_api_platform.Ai.Types.{Message, ProviderRequest, ProviderResponse}

-- Redis, which keeps a value until it expires; the hex of SHA-256; the format %d; and
-- `json.Marshal` and `json.Unmarshal` of an answer.
pub record Cache (S : Type 0) : Type 0 where
  pub read : String → Call S String
  pub write : String → String → Call S (Unit {0})
  pub sha256 : String → String
  pub show_int : ℤ → String
  pub marshal : ProviderResponse → String
  pub unmarshal : String → Option ProviderResponse

-- what `hashPrompt` writes for the messages
abbrev pub messages_text : List Message → String
messages_text [] = ""
messages_text (m ∷ ms) = m.role ++ (m.content ++ messages_text ms)

module _ {S : Type 0} (c : Cache S) where
  abbrev pub hash_prompt : ProviderRequest → String
  hash_prompt q = c.sha256 (
      q.system_prompt
      ++ (messages_text q.messages
          ++ ("|mt=" ++ (c.show_int q.max_tokens ++ ("|t=" ++ q.temperature)))))

  abbrev pub key_of : ProviderRequest → String
  key_of q = "ai:cache:" ++ hash_prompt q

  abbrev pub decoded : Result String → Option ProviderResponse
  decoded (ok found) = c.unmarshal found
  decoded (err _) = none

  -- Any error is a miss.
  abbrev pub cache_get : ProviderRequest → S → Option ProviderResponse × S
  cache_get q s = let (r, s') = c.read (key_of q) s in (decoded r, s')

  abbrev pub cache_set : ProviderRequest → ProviderResponse → Call S (Unit {0})
  cache_set q resp = c.write (key_of q) (c.marshal resp)
