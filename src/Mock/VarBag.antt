-- ===== src/Mock/VarBag.antt =====
-- backend/internal/mock/varbag.go: the session's variables in Redis, and the substitution of
-- `{{name}}` tokens in a response body.
pub mod Tokens
pub mod Laws
pub mod Memory
use sentinel_api_platform.Prelude.{
  ℕ, zero, suc, String, Bool, true, false, not, ◌&&◌, ◌||◌, ◌==◌, Option, none, some, nat_eq,
  if◌then◌else◌,
}
use mathlib.Core.List
use mathlib.Core.List.{List}
use Prim.Native.Char.{Char, code}
use Prim.Native.String.{[], ◌∷◌, ◌++◌}
use sentinel_api_platform.Errs.{Error}
use sentinel_api_platform.Effects.{Result, ok, err, Call, pure, ◌>>=◌, ◌>>◌, map_err, wrap, ignore}
use sentinel_api_platform.Json.{lookup}

-- The Redis client: HGET (`none` for redis.Nil), HSET with EXPIRE in one pipeline, HGETALL and
-- EXPIRE. Times to live are Redis's own and are not read back.
pub record Redis (S : Type 0) : Type 0 where
  pub hget : String → String → Call S (Option String)
  pub hset_expire : String → String → String → Call S (Unit {0})
  pub hgetall : String → Call S (List (String × String))
  pub expire : String → Call S (Unit {0})

-- The interface `VarBag`, by slug and session.
pub record Bag (S : Type 0) : Type 0 where
  pub get : String → String → String → Call S (Option String)
  pub set : String → String → String → String → Call S (Unit {0})
  pub get_all : String → String → Call S (List (String × String))
  pub substitute : String → String → String → Call S String

-- `\s` of Go's regular expressions
abbrev pub is_blank : ℕ → Bool
is_blank c = nat_eq c 9 || nat_eq c 10 || nat_eq c 12 || nat_eq c 13 || nat_eq c 32

-- `[^\s}]`
abbrev pub is_name_char : ℕ → Bool
is_name_char c = not (is_blank c) && not (nat_eq c b'}')

abbrev pub take_while : (ℕ → Bool) → String → String
take_while p [] = []
take_while p (c ∷ s) = if p (code c) then c ∷ take_while p s else []

abbrev pub drop_while : (ℕ → Bool) → String → String
drop_while p [] = []
drop_while p (c ∷ s) = if p (code c) then drop_while p s else c ∷ s

-- What follows two equal characters at the front.
abbrev pub after_two : ℕ → String → Option String
after_two k (c ∷ d ∷ s) = if nat_eq (code c) k && nat_eq (code d) k then some s else none
after_two k _ = none

-- The parts of a template: a character outside every match, or a match of `substituteRE` with its
-- text and its captured name.
pub data Piece : Type 0 where
  plain : Char → Piece
  token : String → String → Piece

abbrev pub is_empty : String → Bool
is_empty [] = true
is_empty (_ ∷ _) = false

-- The end of a match, once the name has been read: blanks and two closing braces.
match_end : String → String → String → Option (Piece × String)
match_end front name s = elim (after_two b'}' (drop_while is_blank s)) [
  | none ↦ none
  | some rest ↦ some (token (front ++ (name ++ (take_while is_blank s ++ "}}"))) name, rest)
]

-- A match of `\{\{\s*([^\s}]+?)\s*\}\}` at the front, and the text after it. The name runs as far
-- as it can: what follows it is a blank or a brace, which it cannot hold.
match_at : String → Option (Piece × String)
match_at s = elim (after_two b'{' s) [
  | none ↦ none
  | some inner ↦
      let body = drop_while is_blank inner in
      let name = take_while is_name_char body in
      if is_empty name
      then none
      else match_end ("{{" ++ take_while is_blank inner) name (drop_while is_name_char body)
]

abbrev pub chars : String → ℕ
chars [] = 0
chars (_ ∷ s) = suc (chars s)

-- `FindAllStringSubmatchIndex`: the matches from the left, none overlapping, and what is between.
tokens_from : ℕ → String → List Piece
tokens_from zero s = List.[]
tokens_from (suc n) [] = List.[]
tokens_from (suc n) (c ∷ s) = elim (match_at (c ∷ s)) [
  | none ↦ List.◌∷◌ (plain c) (tokens_from n s)
  | some (t, rest) ↦ List.◌∷◌ t (tokens_from n rest)
]

unfoldable pub tokens : String → List Piece
unfolding tokens_from match_at match_end
tokens template = tokens_from (chars template) template

abbrev pub has_token : List Piece → Bool
has_token List.[] = false
has_token (List.◌∷◌ (plain _) ps) = has_token ps
has_token (List.◌∷◌ (token _ _) ps) = true

-- The loop that rebuilds the template: a token whose name is not in the bag keeps its text.
unfoldable pub render : (String → Option String) → List Piece → String
render bag List.[] = []
render bag (List.◌∷◌ (plain c) ps) = c ∷ render bag ps
render bag (List.◌∷◌ (token full name) ps) = elim (bag name) [
  | none ↦ full ++ render bag ps
  | some v ↦ v ++ render bag ps
]

unfoldable pub var_key : String → String → String
var_key slug session = "mock:vars:" ++ (slug ++ (":" ++ session))

module _ {S : Type 0} (redis : Redis S) where
  pub get : String → String → String → Call S (Option String)
  get slug session name = do
    found ← map_err (wrap "varbag hget: ") (redis.hget (var_key slug session) name)
    elim found [
      | none ↦ pure none
      | some v ↦ ignore (redis.expire (var_key slug session)) >> pure (some v)
    ]

  pub set : String → String → String → String → Call S (Unit {0})
  set slug session name value =
      map_err (wrap "varbag hset+expire: ") (redis.hset_expire (var_key slug session) name value)

  pub get_all : String → String → Call S (List (String × String))
  get_all slug session = do
    m ← map_err (wrap "varbag hgetall: ") (redis.hgetall (var_key slug session))
    elim m [
      | List.[] ↦ pure List.[]
      | List.◌∷◌ x xs ↦ ignore (redis.expire (var_key slug session)) >> pure (List.◌∷◌ x xs)
    ]

  pub substitute : String → String → String → Call S String
  substitute slug session template =
      if has_token (tokens template)
      then (do
        bag ← get_all slug session
        pure (render (λ name. lookup name bag) (tokens template)))
      else pure template

  unfoldable pub redis_bag : Bag S
  unfolding get set get_all substitute
  redis_bag = record { get = get; set = set; get_all = get_all; substitute = substitute }
