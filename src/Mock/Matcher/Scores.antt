-- ===== src/Mock/Matcher/Scores.antt =====
-- The score of one rule: its bounds, and that the order in which Go visits a map does not change it.
use sentinel_api_platform.Prelude.{
  ℕ, ◌+◌, ◌≤◌, ◌≡◌, refl, ◌∙◌, ◌⊎◌, inl, inr, Option, none, some, String, List, [], ◌∷◌, arith,
}
use sentinel_api_platform.Prelude.Checked.{good, Checked-cases}
use mathlib.Core.List.{Permᴰ}
use sentinel_api_platform.Json.{Json, Std, lookup}
use sentinel_api_platform.Model.{MockRule}
use sentinel_api_platform.Mock.Matcher.{
  MatchRequest, FieldSpec, MatchSpec, first_value, decoded, add_score, score_field, score_fields,
  score_body_json, score_body_field, score_body, score_spec, score_rule, validate_match_json,
  decode_field_spec,
}

-- A field, the query, the headers and the body add nothing, or 10 at least.
abbrev pub IsScore : ℕ → Type 0
IsScore n = (n ≡ 0) ⊎ (10 ≤ n)

module _ (std : Std) where
  score_field-IsScore : (spec : FieldSpec) (value : String) → IsScore (score_field std spec value).0
  unfolding score_field
  score_field-IsScore spec value = ground arith

  score_body_json-IsScore :
      (want : Json) (request : String) → IsScore (score_body_json std want request).0
  unfolding score_body_json
  score_body_json-IsScore want request = ground arith

  score_body_field-IsScore :
      (raw : Json) (request : String) → IsScore (score_body_field std raw request).0
  unfolding score_body_field
  score_body_field-IsScore raw request = elim (Checked-cases (decode_field_spec std raw)) [
    | inl (e, eq) ↦ rw (eq, score_body_field) (score_body_json-IsScore raw request)
    | inr (fs, eq) ↦
        rw (eq, score_body_field)
          (ground (arith, score_field-IsScore fs request, score_body_json-IsScore raw request))
  ]

  -- The sum over the fields, with no accumulator.
  abbrev field_total : (String → String) → List (String × Json) → ℕ
  field_total value [] = 0
  field_total value ((k, v) ∷ m) =
      (score_field std (decoded std v) (value k)).0 + field_total value m

  field_total-IsScore :
      (value : String → String) (m : List (String × Json)) → IsScore (field_total value m)
  field_total-IsScore value [] = inl refl
  field_total-IsScore value ((k, v) ∷ m) =
      ground (arith, score_field-IsScore (decoded std v) (value k), field_total-IsScore value m)

  score_fields-total :
      (value : String → String) (m : List (String × Json)) (acc : ℕ × String)
      → (score_fields std value m acc).0 ≡ acc.0 + field_total value m
  unfolding score_fields
  score_fields-total value [] acc = omega arith
  score_fields-total value ((k, v) ∷ m) acc = omega (
    arith,
    score_fields-total value m (add_score acc (score_field std (decoded std v) (value k))),
  )

  score_body-IsScore :
      (body : Option Json) (request : String) (acc : ℕ × String)
      → IsScore acc.0
      → IsScore (score_body std body request acc).0
  score_body-IsScore none request acc h = h
  score_body-IsScore (some raw) request acc h = ground (arith, score_body_field-IsScore raw request)

  score_spec-IsScore : (req : MatchRequest) (spec : MatchSpec) → IsScore (score_spec std req spec).0
  unfolding score_spec
  score_spec-IsScore req spec = score_body-IsScore spec.body req.body _ (
      ground (
        arith,
        score_fields-total (λ k. first_value (lookup (std.canonical k) req.headers)) spec.headers
            (score_fields std (λ k. first_value (lookup k req.query)) spec.query (0, "exact")),
        score_fields-total (λ k. first_value (lookup k req.query)) spec.query (0, "exact"),
        field_total-IsScore (λ k. first_value (lookup k req.query)) spec.query,
        field_total-IsScore (λ k. first_value (lookup (std.canonical k) req.headers)) spec.headers,
      ))

  -- A rule that is a fallback, with an empty `match_json` or no declared field, scores 1; any other
  -- valid rule scores 0 or 10 at least. So a fallback never comes before a rule with a field that
  -- matched.
  pub score_rule_bounds :
      (req : MatchRequest) (rule : MockRule) (score : ℕ) (reason : String)
      → score_rule std req rule ≡ good (score, reason)
      → (score ≡ 0) ⊎ ((score ≡ 1) × (reason ≡ "catchall")) ⊎ (10 ≤ score)
  unfolding score_rule
  score_rule_bounds req rule score reason h =
      elim (Checked-cases (validate_match_json std rule.match_json)) [
        | inl (e, eq) ↦ ground arith
        | inr (spec, eq) ↦ ground (arith, score_spec-IsScore req spec)
      ]

  field_total_perm :
      (value : String → String) {m m' : List (String × Json)}
      → Permᴰ m m'
      → field_total value m ≡ field_total value m'
  field_total_perm value Permᴰ.nil = refl
  field_total_perm value (Permᴰ.cons e p) = rw e (ground (arith, field_total_perm value p))
  field_total_perm value (Permᴰ.swap e e') = rw (e, e') (omega arith)
  field_total_perm value (Permᴰ.trans p q) = field_total_perm value p ∙ field_total_perm value q

  -- The total over the fields of a map is the same in whatever order Go visits them.
  pub score_fields_perm :
      (value : String → String) (m m' : List (String × Json)) (acc : ℕ × String)
      → Permᴰ m m'
      → (score_fields std value m acc).0 ≡ (score_fields std value m' acc).0
  score_fields_perm value m m' acc p = omega (
    arith,
    score_fields-total value m acc,
    score_fields-total value m' acc,
    field_total_perm value p,
  )
