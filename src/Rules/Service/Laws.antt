-- ===== src/Rules/Service/Laws.antt =====
-- Who may change the mock rules, and what a new rule has.
mod Tests
use sentinel_api_platform.Prelude.{
  pos, ◌≡◌, refl, sym, ap, ◌∙◌, inl, inr, String, Bool, true, false, not, ◌==◌, arith, Bool-cases,
  trim_space, int_eq, if◌then◌else◌, ℤ,
}
use sentinel_api_platform.Errs.{
  Error, Sentinel, sentinel, wrapped, is, not_found, bad_request, conflict,
}
use sentinel_api_platform.Effects.{
  ok_injective, Result, ok, err, Call, pure, guard, draw, ◌>>=◌, ◌>>◌, map_err, sentinel_or,
  bind-ok, map_err-ok,
}
use sentinel_api_platform.Model.{MockRule, Columns}
use sentinel_api_platform.Apis.Service.{RoleChecker, is_editor}
use sentinel_api_platform.Apis.Service.Laws.{
  Stopped, IsOutsider, require_editor-Stopped, require_editor-ok,
}
use sentinel_api_platform.Rules.Service.{
  RuleStore, CreateRuleSpec, or_default, new_rule, store_new, create, create_checked, update,
  update_checked, delete, delete_checked,
}

or_default-nonzero : (n d : ℤ) → int_eq d (pos 0) ≡ false → int_eq (or_default n d) (pos 0) ≡ false
or_default-nonzero n d h = elim (Bool-cases (int_eq n (pos 0))) [
  | inl e ↦ rw e h
  | inr e ↦ rw e (rw e refl)
]

module _ {S : Type 0} (rules : RuleStore S) (role_for : RoleChecker S) (new_id : S → String × S)
    (valid : String → Bool) where
  -- A caller who is neither admin nor engineer of the project that is named can create, update and
  -- delete no rule: the call fails, and it leaves the state in which the lookup of the role has
  -- left it.
  pub rule_editor_needed :
      (caller pid : String) (s : S)
      → IsOutsider role_for caller pid s
      → ((api_id : String) (spec : CreateRuleSpec)
          → Stopped
              (create rules role_for new_id valid caller pid api_id spec s)
              (role_for pid caller s).1)
        × ((id : String) (fields : Columns)
            → Stopped
                (update rules role_for new_id valid caller pid id fields s)
                (role_for pid caller s).1)
        × ((id : String)
            → Stopped
                (delete rules role_for new_id valid caller pid id s)
                (role_for pid caller s).1)
  unfolding create update delete
  rule_editor_needed caller pid s h = (
    λ api_id spec.
        require_editor-Stopped role_for caller pid
          (create_checked rules role_for new_id valid api_id spec) s h,
    λ id fields.
        require_editor-Stopped role_for caller pid
          (update_checked rules role_for new_id valid id fields) s h,
    λ id.
        require_editor-Stopped role_for caller pid (delete_checked rules role_for new_id valid id) s
          h,
  )

  store_new-ok :
      (a b : MockRule) (s : S)
      → (store_new rules role_for new_id valid b s).0 ≡ ok a
      → (b ≡ a) × ((rules.create a s).0 ≡ ok tt)
  unfolding store_new
  store_new-ok a b s h =
      let context = sentinel_or conflict "create mock_rule: " in
      let (_, made, same) = bind-ok (map_err context (rules.create b)) (λ _. pure b) s a h in
      let same_rule : b ≡ a = ok_injective (ap (λ x. x.0) (sym same) ∙ h) in
      (same_rule, rw⁻¹ same_rule (map_err-ok context (rules.create b) s tt made))

  create_checked-ok :
      (api_id : String) (spec : CreateRuleSpec) (s : S) (a : MockRule)
      → (create_checked rules role_for new_id valid api_id spec s).0 ≡ ok a
      → ((trim_space spec.name == "") ≡ false)
        × ((spec.match_json == "") ≡ false)
        × (valid spec.match_json ≡ true)
        × ((store_new rules role_for new_id valid
              (new_rule rules role_for new_id valid (new_id s).0 api_id spec)
              (new_id s).1).0
            ≡ ok a)
  unfolding create_checked
  create_checked-ok api_id spec s a h = elim (Bool-cases (trim_space spec.name == "")) [
    | inl e ↦ (let stuck = rw (e, create_checked) at h in ground arith)
    | inr named ↦ elim (Bool-cases (spec.match_json == "")) [
      | inl e ↦ (let stuck = rw (named, create_checked, e) at h in ground arith)
      | inr filled ↦ elim (Bool-cases (valid spec.match_json)) [
        | inr e ↦ (let stuck = rw (named, create_checked, filled, e) at h in ground arith)
        | inl json ↦ (named, filled, json, rw (named, create_checked, filled, json) at h)
      ]
    ]
  ]

  -- A rule that is created belongs to the API that was asked for, and has a name that is not empty,
  -- a condition that is JSON, a status and a priority that are not zero, is enabled and has no hit;
  -- its caller is an admin or an engineer of the project that was named, and its row was stored.
  pub create_rule_ok :
      (caller pid api_id : String) (spec : CreateRuleSpec) (s : S) (r : MockRule)
      → (create rules role_for new_id valid caller pid api_id spec s).0 ≡ ok r
      → ((role : String) × ((role_for pid caller s).0 ≡ ok role) × (is_editor role ≡ true))
        × (r.api_id ≡ api_id)
        × ((r.name == "") ≡ false)
        × (valid r.match_json ≡ true)
        × (int_eq r.response_status (pos 0) ≡ false)
        × (int_eq r.priority (pos 0) ≡ false)
        × (r.enabled ≡ true)
        × (r.hit_count ≡ 0)
        × ((t : S) × ((rules.create r t).0 ≡ ok tt))
  unfolding create new_rule
  create_rule_ok caller pid api_id spec s r h =
      let (role, found, editor, h₁) =
        require_editor-ok role_for caller pid
          (create_checked rules role_for new_id valid api_id spec) s r h in
      let s₁ = (role_for pid caller s).1 in
      let (named, filled, json, stored) = create_checked-ok api_id spec s₁ r h₁ in
      let (same, row) = store_new-ok r _ (new_id s₁).1 stored in
      rw⁻¹ same (
        (role, found, editor),
        refl,
        named,
        json,
        or_default-nonzero spec.response_status (pos 200) refl,
        or_default-nonzero spec.priority (pos 100) refl,
        refl,
        refl,
        ((new_id s₁).1, rw same row),
      )
