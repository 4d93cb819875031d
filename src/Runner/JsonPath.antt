-- ===== src/Runner/JsonPath.antt =====
-- `jsonPathLookup` of backend/internal/runner/assertion.go.
mod Tests
pub mod Laws
pub mod Below
use sentinel_api_platform.Prelude.{
  ℕ, zero, suc, ◌+◌, ◌-◌, ◌*◌, ◌^◌, ℤ, pos, negsuc, Bool, true, false, ◌&&◌, ◌||◌, Option, none,
  some, nat_eq, ltb, leb, if◌then◌else◌,
}
use mathlib.Core.List
use mathlib.Core.List.{List}
use Prim.Native.Char.{Char, code}
use Prim.Native.String.{String, [], ◌∷◌}
use sentinel_api_platform.Json.{Json, arr, obj, entries, elements, lookup, Std}
use sentinel_api_platform.Prelude.Checked.{Checked, good, bad}

-- How a lookup fails; `panics` is Go's run-time error for an index below zero.
pub data PathError : Type 0 where
  parse_body bad_brackets bad_index not_object not_found not_array out_of_range panics : PathError

-- The text before the first character `k`, and that after it, where there is one.
abbrev pub cut_at : ℕ → String → Option (String × String)
cut_at k [] = none
cut_at k (c ∷ s) =
    if nat_eq (code c) k
    then some ([], s)
    else elim (cut_at k s) [ none ↦ none | some (before, after) ↦ some (c ∷ before, after) ]

-- `strings.Split(s, ".")`
abbrev pub split_dots : String → List String
split_dots [] = List.◌∷◌ [] List.[]
split_dots (c ∷ s) =
    if nat_eq (code c) b'.' then List.◌∷◌ [] (split_dots s) else elim (split_dots s) [
      | List.[] ↦ List.◌∷◌ (c ∷ []) List.[]
      | List.◌∷◌ part parts ↦ List.◌∷◌ (c ∷ part) parts
    ]

-- `strings.TrimPrefix(path, "$.")`
abbrev pub trim_root : String → String
trim_root (c ∷ d ∷ s) = if nat_eq (code c) b'$' && nat_eq (code d) b'.' then s else c ∷ d ∷ s
trim_root s = s

abbrev is_digit : ℕ → Bool
is_digit c = leb b'0' c && leb c b'9'

-- The number that the digits at the front spell, what follows them being left.
pub scan_digits : ℕ → String → ℕ
scan_digits acc [] = acc
scan_digits acc (c ∷ s) =
    let next = scan_digits (acc * 10 + (code c - b'0')) s in if is_digit (code c) then next else acc

pub scan_natural : String → Option ℕ
scan_natural [] = none
scan_natural (c ∷ s) = if is_digit (code c) then some (scan_digits 0 (c ∷ s)) else none

-- the range of a 64-bit `int`
pub int_in_range : ℤ → Option ℤ
int_in_range (pos n) = if ltb n (2 ^ 63) then some (pos n) else none
int_in_range (negsuc n) = if ltb n (2 ^ 63) then some (negsuc n) else none

abbrev negate : ℕ → ℤ
negate zero = pos 0
negate (suc n) = negsuc n

abbrev in_range_or_none : (ℕ → ℤ) → Option ℕ → Option ℤ
in_range_or_none f none = none
in_range_or_none f (some n) = int_in_range (f n)

-- `isSpace` of fmt but for the newline, at which a scan of a text fails: 9 to 13, 32, 133, 160 and
-- the other blanks of Unicode
abbrev is_blank : ℕ → Bool
is_blank c =
    nat_eq c 9
    || (leb 11 c && leb c 13)
    || nat_eq c 32
    || nat_eq c 133
    || nat_eq c 160
    || nat_eq c 5760
    || (leb 8192 c && leb c 8202)
    || nat_eq c 8232
    || nat_eq c 8233
    || nat_eq c 8239
    || nat_eq c 8287
    || nat_eq c 12288

abbrev skip_blanks : String → String
skip_blanks [] = []
skip_blanks (c ∷ s) = if is_blank (code c) then skip_blanks s else c ∷ s

pub scan_signed : String → Option ℤ
scan_signed [] = none
scan_signed (c ∷ s) =
    if nat_eq (code c) b'-'
    then in_range_or_none negate (scan_natural s)
    else if nat_eq (code c) b'+'
    then in_range_or_none pos (scan_natural s)
    else in_range_or_none pos (scan_natural (c ∷ s))

-- `fmt.Sscanf(s, "%d", &n)`: blanks, a sign and digits; the rest of the text is not looked at
pub scan_int : String → Option ℤ
scan_int s = scan_signed (skip_blanks s)

-- A part of the path: its key, and the index in brackets.
pub parse_part : String → Checked PathError (String × Option ℤ)
parse_part part = elim (cut_at b'[' part) [
  | none ↦ good (part, none)
  | some (key, inner) ↦ elim (cut_at b']' inner) [
    | none ↦ bad bad_brackets
    | some (digits, _) ↦ elim (scan_int digits) [
      | none ↦ bad bad_index
      | some n ↦ good (key, some n)
    ]
  ]
]

abbrev pub item_at : List Json → ℕ → Checked PathError Json
item_at List.[] n = bad out_of_range
item_at (List.◌∷◌ v vs) zero = good v
item_at (List.◌∷◌ v vs) (suc n) = item_at vs n

-- The test of the bound lets an index below zero through, and `arr[*idx]` then panics.
pub index_into : Json → ℤ → Checked PathError Json
index_into (arr vs) (pos n) = item_at (elements vs) n
index_into (arr vs) (negsuc n) = bad panics
index_into _ n = bad not_array

abbrev pub index_if : Option ℤ → Json → Checked PathError Json
index_if none v = good v
index_if (some n) v = index_into v n

-- One round of the loop.
pub step_into : Json → String × Option ℤ → Checked PathError Json
step_into (obj fs) (key, idx) = elim (lookup key (entries fs)) [
  | none ↦ bad not_found
  | some v ↦ index_if idx v
]
step_into _ _ = bad not_object

pub walk : Json → List String → Checked PathError Json
walk cur List.[] = good cur
walk cur (List.◌∷◌ part parts) = elim (parse_part part) [
  | bad e ↦ bad e
  | good step ↦ elim (step_into cur step) [ bad e ↦ bad e | good next ↦ walk next parts ]
]

unfoldable pub json_path_lookup : Std → String → String → Checked PathError Json
unfolding walk step_into index_into parse_part scan_int scan_signed int_in_range scan_natural
    scan_digits
json_path_lookup std raw path = elim (std.parse raw) [
  | none ↦ bad parse_body
  | some root ↦ walk root (split_dots (trim_root path))
]
