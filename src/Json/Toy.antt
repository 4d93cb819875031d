-- ===== src/Json/Toy.antt =====
-- A reader of a few texts, with which the library's parameters can be filled in tests.
use sentinel_api_platform.Prelude.{pos, String, Option, none, some, [], ◌∷◌, ◌==◌, if◌then◌else◌}
use sentinel_api_platform.Json.{Json, null, bool, num, str, arr, obj, nil, cons, end, field, Std}

-- The texts are names of the values that the tests need.
abbrev pub toy_parse : String → Option Json
toy_parse s =
    if s == "{}"
    then some (obj end)
    else if s == "[]"
    then some (arr nil)
    else if s == "null"
    then some null
    else if s == "7"
    then some (num "7")
    else if s == "q:a=1"
    then some (obj (field "query" (obj (field "a" (str "1") end)) end))
    else if s == "h:x~re"
    then some (obj (field "headers" (obj (field "X" (obj (field "regex" (str "re") end)) end)) end))
    else if s == "both"
    then some (
        obj (
          field "query"
            (obj (field "a" (str "1") (field "b" (obj (field "type" (str "number") end)) end)))
            end))
    else if s == "unknown"
    then some (obj (field "cookies" (obj end) end))
    else if s == "status=200"
    then some (arr (cons (obj (field "type" (str "status") (field "expect" (num "200") end))) nil))
    else if s == "a=list"
    then some (obj (field "a" (arr (cons (num "7") nil)) end))
    else if s == "path=a[-1]"
    then some (obj (field "path" (str "a[-1]") end))
    else none

abbrev pub toy_marshal : Json → String
toy_marshal null = "null"
toy_marshal (num n) = n
toy_marshal (str s) = s
toy_marshal (bool b) = if b then "true" else "false"
toy_marshal (arr nil) = "[]"
toy_marshal (obj end) = "{}"
toy_marshal _ = "..."

-- The only pattern is "re", and it matches the text "req-1" alone.
abbrev pub toy : Std
toy = record {
  parse = toy_parse;
  marshal = toy_marshal;
  compiles = λ p. p == "re";
  submatch = λ p s. if s == "req-1" then "req-1" ∷ "1" ∷ [] else [];
  truncate = λ n. if n == "200" then pos 200 else pos 7;
  canonical = λ k. k;
}
