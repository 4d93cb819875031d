-- ===== src/Prelude/Texts.antt =====
-- Texts as the Go code uses them: `strings.TrimSpace`, `strings.ToLower`, `strings.ToUpper` on
-- ASCII letters, `strings.Contains` for one character, `strings.TrimLeft`, `strings.TrimRight` and
-- `strings.TrimPrefix` for one character, and the order `<` of strings.
use Prim.Native.Nat.{ℕ, compare, Ordering}
use Prim.Native.Char.{Char, code}
use Prim.Native.String.{String, [], ◌∷◌}
use mathlib.Core.Bool.{Bool, true, false, ◌&&◌, ◌||◌}
use sentinel_api_platform.Prelude.Tests.{leb, nat_eq, if◌then◌else◌}

-- `unicode.IsSpace`
is_space : ℕ → Bool
is_space c =
    (leb 9 c && leb c 13)
    || nat_eq c 32
    || nat_eq c 133
    || nat_eq c 160
    || nat_eq c 5760
    || (leb 8192 c && leb c 8202)
    || nat_eq c 8232
    || nat_eq c 8233
    || nat_eq c 8239
    || nat_eq c 8287
    || nat_eq c 12288

abbrev drop_front : (ℕ → Bool) → String → String
drop_front p [] = []
drop_front p (c ∷ s) = if p (code c) then drop_front p s else c ∷ s

-- One character in front of a text whose spaces at the end are gone.
abbrev cons_unless_end : (ℕ → Bool) → Char → String → String
cons_unless_end p c [] = if p (code c) then [] else c ∷ []
cons_unless_end p c (d ∷ s) = c ∷ d ∷ s

abbrev drop_back : (ℕ → Bool) → String → String
drop_back p [] = []
drop_back p (c ∷ s) = cons_unless_end p c (drop_back p s)

unfoldable pub trim_space : String → String
unfolding is_space
trim_space s = drop_back is_space (drop_front is_space s)

-- `strings.TrimLeft(s, "/")` and `strings.TrimRight(s, "/")`
unfoldable pub trim_left_slashes : String → String
trim_left_slashes s = drop_front (λ c. nat_eq c b'/') s

unfoldable pub trim_right_slashes : String → String
trim_right_slashes s = drop_back (λ c. nat_eq c b'/') s

-- `strings.TrimPrefix(s, "/")`
unfoldable pub trim_prefix_slash : String → String
trim_prefix_slash [] = []
trim_prefix_slash (c ∷ s) = if nat_eq (code c) b'/' then s else c ∷ s

-- `strings.Contains(s, "@")`
unfoldable pub contains_char : ℕ → String → Bool
contains_char k [] = false
contains_char k (c ∷ s) = nat_eq (code c) k || contains_char k s

-- `a < b` on strings. The order by code points is the order by the bytes of their UTF-8.
unfoldable pub str_lt : String → String → Bool
str_lt s [] = false
str_lt [] (d ∷ t) = true
str_lt (c ∷ s) (d ∷ t) = elim (compare (code c) (code d)) [
  | Ordering.lt ↦ true
  | Ordering.eq ↦ str_lt s t
  | Ordering.gt ↦ false
]

-- `strings.HasPrefix` and `strings.Contains`, the text looked in last
abbrev pub is_prefix : String → String → Bool
is_prefix [] t = true
is_prefix (c ∷ s) [] = false
is_prefix (c ∷ s) (d ∷ t) = nat_eq (code c) (code d) && is_prefix s t

unfoldable pub is_infix : String → String → Bool
is_infix s [] = is_prefix s []
is_infix s (d ∷ t) = is_prefix s (d ∷ t) || is_infix s t
