-- ===== src/Mock/VarBag/Laws/Tests.antt =====
-- The bag over a Redis server in memory.
use sentinel_api_platform.Prelude.{◌≡◌, ◌≢◌, refl, String, Option, some, ◌==◌, if◌then◌else◌}
use mathlib.Core.List.{List}
use sentinel_api_platform.Effects.{ok}
use sentinel_api_platform.Mock.VarBag.{tokens, render, var_key, get, set, get_all, substitute}
use sentinel_api_platform.Mock.VarBag.Memory.{Hashes, memory, memory_laws}
use sentinel_api_platform.Mock.VarBag.Laws.{get-set}

bag : Unit {0}
unfolding tokens render var_key get set get_all substitute
bag = tt

abbrev session : Hashes
session k = if k == "mock:vars:pets:s1" then List.◌∷◌ ("pet", "7") List.[] else List.[]

substitute_run :
    ((substitute memory "pets" "s1" "{{ pet }}/{{cat}}{{{pet}} { }}" session).0
      ≡ ok "7/{{cat}}{{{pet}} { }}")
    × ((substitute memory "pets" "s1" "{{}} {{a b}}" session).0 ≡ ok "{{}} {{a b}}")
unfolding bag
substitute_run = (refl, refl)

abbrev eight : Option String
eight = some "8"

get-set_example :
    ((◌≡◌ {A = String} "pet" "pet") → eight ≡ some "8")
    × ((◌≢◌ {A = String} "pet" "pet")
        → eight ≡ memory_laws.value session (var_key "pets" "s1") "pet")
unfolding bag
get-set_example = get-set memory memory_laws "pets" "s1" "pet" "8" "pet" session eight refl refl
