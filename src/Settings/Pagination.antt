-- ===== src/Settings/Pagination.antt =====
-- backend/internal/pkg/pagination/pagination.go: the parameters of a page.
use sentinel_api_platform.Prelude.{
  ℕ, ◌≤◌, inl, inr, String, ◌==◌, ltb, ℤ, pos, negsuc, Bool-cases, Option, none, some, arith,
  if◌then◌else◌,
}
use sentinel_api_platform.Errs.{Error, other}

pub record Params : Type 0 where
  pub cursor : String
  pub limit : ℕ

-- `Parse` returns its parameters with the error too. `atoi` is `strconv.Atoi`.
abbrev pub limited : Params → Option ℤ → Params × Option Error
limited p none = (p, some (other "invalid limit: must be >= 1"))
limited p (some (negsuc n)) = (p, some (other "invalid limit: must be >= 1"))
limited p (some (pos n)) =
    if ltb n 1
    then (p, some (other "invalid limit: must be >= 1"))
    else if ltb 100 n
    then (p, some (other "limit exceeds max"))
    else (record p { limit = n }, none)

pub parse_page : (String → Option ℤ) → String → String → Params × Option Error
parse_page atoi cursor limit_text =
    if limit_text == ""
    then (record { cursor = cursor; limit = 20 }, none)
    else limited (record { cursor = cursor; limit = 20 }) (atoi limit_text)

limited-bounds :
    (p : Params) (n : Option ℤ)
    → 1 ≤ p.limit
    → p.limit ≤ 100
    → (1 ≤ (limited p n).0.limit) × ((limited p n).0.limit ≤ 100)
limited-bounds p none low high = (low, high)
limited-bounds p (some (negsuc n)) low high = (low, high)
limited-bounds p (some (pos n)) low high = elim (Bool-cases (ltb n 1)) [
  | inl e ↦ rw e (low, high)
  | inr e ↦ rw e (elim (Bool-cases (ltb 100 n)) [
    | inl f ↦ rw f (low, high)
    | inr f ↦ rw f (ground arith, ground arith)
  ])
]

-- A page has from 1 to 100 entries, whatever the request asks for, and also where it is refused.
pub parse_page_bounds :
    (atoi : String → Option ℤ) (cursor limit_text : String)
    → (1 ≤ (parse_page atoi cursor limit_text).0.limit)
      × ((parse_page atoi cursor limit_text).0.limit ≤ 100)
unfolding parse_page
parse_page_bounds atoi cursor limit_text = elim (Bool-cases (limit_text == "")) [
  | inl e ↦ rw (e, parse_page) (omega arith, omega arith)
  | inr e ↦
      rw (e, parse_page)
        (limited-bounds (record { cursor = cursor; limit = 20 }) (atoi limit_text) (omega arith)
          (omega arith))
]
