-- ===== src/Mock/Extractor/Laws/Tests.antt =====
-- Two rules that write one name.
use sentinel_api_platform.Prelude.{
  ◌≡◌, refl, String, Option, none, some, List, [], ◌∷◌, ◌==◌, if◌then◌else◌,
}
use sentinel_api_platform.Json.Toy.{toy}
use sentinel_api_platform.Mock.VarBag.{Bag, redis_bag}
use sentinel_api_platform.Mock.VarBag.Memory.{Hashes, memory, memory_laws}
use sentinel_api_platform.Mock.VarBag.Laws.{BagLaws, redis_bag-BagLaws}
use sentinel_api_platform.Mock.Extractor.{ExtractRule, extract, of_gjson, of_submatch}
use sentinel_api_platform.Mock.Extractor.Laws.{last_value}

abbrev gjson : String → String → Option String
gjson body path = if path == "token" then some "abc" else none

abbrev rules : List ExtractRule
rules =
    record { path = "re"; as_name = "id"; from = ""; kind = "regex" }
    ∷ record { path = "token"; as_name = "id"; from = "response.body"; kind = "" }
    ∷ record { path = "gone"; as_name = "id"; from = ""; kind = "" }
    ∷ []

abbrev bag : Bag Hashes
bag = redis_bag memory

laws : BagLaws bag "pets" "s1"
laws = redis_bag-BagLaws memory memory_laws "pets" "s1"

abbrev session : Hashes
session k = []

-- The later rule wins.
last_value_run : last_value toy gjson "req-1" rules "id" none ≡ some "abc"
unfolding extract of_gjson of_submatch
last_value_run = refl
