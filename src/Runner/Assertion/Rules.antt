-- ===== src/Runner/Assertion/Rules.antt =====
-- When the rules of `assertions_json` find nothing, in backend/internal/runner/assertion.go.
use sentinel_api_platform.Prelude.{
  ℤ, ◌≡◌, refl, sym, ◌↔◌, inl, inr, String, Bool, true, false, ◌==◌, List, [], ◌∷◌, ◌++◌, int_eq,
  eq_iff, arith, All, Bool-cases,
}
use mathlib.Core.List.{Memᴰ}
use sentinel_api_platform.Json.{Json, Std}
use sentinel_api_platform.Runner.Assertion.{
  Message, unless, string_at, values_of, member, expected_int, assert_rule, assert_rules,
}

module _ {ℓ} {A : Type ℓ} where
  pub append_nil_iff : (xs ys : List A) → (xs ++ ys ≡ []) ↔ ((xs ≡ []) × (ys ≡ []))
  append_nil_iff [] ys = (λ h. (refl, h), λ h. h.1)
  append_nil_iff (x ∷ xs) ys = (λ h. ground arith, λ h. ground arith)

unless_iff : (b : Bool) (kind : String) (m : Message) → (unless b kind m ≡ []) ↔ (b ≡ true)
unless_iff true kind m = (λ h. refl, λ h. refl)
unless_iff false kind m = (λ h. ground arith, λ h. ground arith)

member_iff : (x : String) (ys : List String) → (member x ys ≡ true) ↔ Memᴰ x ys
member_iff x [] = (λ h. ground arith, λ m. elim m [ ])
member_iff x (y ∷ ys) = (
  λ h. elim (Bool-cases (y == x)) [
    | inl e ↦ Memᴰ.head (sym ((eq_iff y x).0 e))
    | inr e ↦ Memᴰ.tail ((member_iff x ys).0 (rw e at h))
  ],
  λ m. elim m [
    | Memᴰ.head e ↦ (let same = (eq_iff y x).1 (sym e) in rw same refl)
    | Memᴰ.tail n ↦ (let rest = (member_iff x ys).1 n in ground arith)
  ],
)

module _ (std : Std) where
  module _ (status : ℤ) (headers : List (String × List String)) where
    -- What a rule of `assertions_json` asks for: a status, a header's value, or nothing.
    pub data RulePasses (rule : List (String × Json)) : Type 0 where
      same_status :
          string_at "type" rule ≡ "status"
          → int_eq (expected_int std rule) status ≡ true
          → RulePasses rule
      has_value :
          string_at "type" rule ≡ "header"
          → Memᴰ (string_at "expect" rule) (values_of (string_at "name" rule) headers)
          → RulePasses rule
      other_type :
          (string_at "type" rule == "status") ≡ false
          → (string_at "type" rule == "header") ≡ false
          → RulePasses rule

    rule_iff : (r : List (String × Json)) → (assert_rule std status headers r ≡ []) ↔ RulePasses r
    unfolding assert_rule
    rule_iff r = (
      λ h. elim (Bool-cases (string_at "type" r == "status")) [
        | inl e ↦
            same_status ((eq_iff (string_at "type" r) "status").0 e)
              ((unless_iff (int_eq (expected_int std r) status) "status" _).0 (rw e at h))
        | inr e ↦ elim (Bool-cases (string_at "type" r == "header")) [
          | inl e' ↦ has_value ((eq_iff (string_at "type" r) "header").0 e') (
              (member_iff (string_at "expect" r) (values_of (string_at "name" r) headers)).0 (
                (unless_iff (member (string_at "expect" r) (values_of (string_at "name" r) headers))
                    "header" _).0
                  (rw (e, e') at h)))
          | inr e' ↦ other_type e e'
        ]
      ],
      λ p. elim p [
        | same_status e same ↦ rw (e, same) refl
        | has_value e m ↦
            rw (e, (member_iff (string_at "expect" r) (values_of (string_at "name" r) headers)).1 m)
              refl
        | other_type e e' ↦ rw (e, e') refl
      ],
    )

    pub rules_iff :
        (rs : List (List (String × Json)))
        → (assert_rules std status headers rs ≡ []) ↔ All RulePasses rs
    unfolding assert_rules
    rules_iff [] = (λ h. tt, λ h. refl)
    rules_iff (r ∷ rs) =
        let both =
          append_nil_iff (assert_rule std status headers r) (assert_rules std status headers rs) in
        (
          λ h. let (a, b) = both.0 h in ((rule_iff r).0 a, (rules_iff rs).0 b),
          λ h. both.1 ((rule_iff r).1 h.0, (rules_iff rs).1 h.1),
        )
