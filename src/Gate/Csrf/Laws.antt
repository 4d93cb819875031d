-- ===== src/Gate/Csrf/Laws.antt =====
-- Which requests pass the CSRF check.
mod Tests
use sentinel_api_platform.Prelude.{
  ◌≡◌, refl, sym, ap, ◌∙◌, ◌⊎◌, inl, inr, ◌↔◌, String, Bool, true, false, ◌||◌, ◌==◌, eq_iff,
  Option, none, some, Bool-cases, arith, if◌then◌else◌,
}
use sentinel_api_platform.Gate.Csrf.{
  goes_on, is_safe_method, check_header, check_cookie, csrf_required,
}

check_cookie-goes_on :
    (cookie : Option String) (header : String)
    → check_cookie cookie header ≡ goes_on
    → (cookie ≡ some header) × ((header == "") ≡ false)
check_cookie-goes_on none header h = ground arith
check_cookie-goes_on (some c) header h = elim (Bool-cases (c == "")) [
  | inl e ↦ (let stuck = rw e at h in ground arith)
  | inr given ↦ elim (Bool-cases (header == "")) [
    | inl e ↦ (let stuck = rw (given, e) at h in ground arith)
    | inr sent ↦ elim (Bool-cases (c == header)) [
      | inr e ↦ (let stuck = rw (given, sent, e) at h in ground arith)
      | inl same ↦ (ap some ((eq_iff c header).0 same), sent)
    ]
  ]
]

-- A request passes exactly where its method is GET, HEAD or OPTIONS, or its cookie and its header
-- hold the same token and it is not empty.
pub csrf_required-goes_on_iff :
    (method : String) (cookie : Option String) (header : String)
    → (csrf_required method cookie header ≡ goes_on)
      ↔ ((is_safe_method method ≡ true) ⊎ ((cookie ≡ some header) × ((header == "") ≡ false)))
unfolding csrf_required
csrf_required-goes_on_iff method cookie header = (
  λ h. elim (Bool-cases (is_safe_method method)) [
    | inl safe ↦ inl safe
    | inr unsafe ↦ inr (check_cookie-goes_on cookie header (rw (unsafe, csrf_required) at h))
  ],
  λ h. elim (Bool-cases (is_safe_method method)) [
    | inl safe ↦ rw (safe, csrf_required) refl
    | inr unsafe ↦ elim h [
      | inl safe ↦ (let stuck = sym safe ∙ unsafe in ground arith)
      | inr (same, sent) ↦
          rw (unsafe, csrf_required) (rw same (rw sent (rw ((eq_iff header header).1 refl) refl)))
    ]
  ],
)
