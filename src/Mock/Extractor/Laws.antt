-- ===== src/Mock/Extractor/Laws.antt =====
-- What the bag holds after the extractor has run.
mod Tests
use sentinel_api_platform.Prelude.{
  ◌≡◌, refl, sym, ap, ◌∙◌, ◌⊎◌, inl, inr, String, Bool, true, false, Option, none, some, List, [],
  ◌∷◌, ◌==◌, eq_iff, Bool-cases, arith, if◌then◌else◌,
}
use mathlib.Core.Bool.{false≢true}
use sentinel_api_platform.Effects.{ok, map_err, ◌>>=◌, wrap, map_err-state, map_err-ok, bind-ok}
use sentinel_api_platform.Json.{Std}
use sentinel_api_platform.Mock.VarBag.{Bag}
use sentinel_api_platform.Mock.VarBag.Laws.{BagLaws}
use sentinel_api_platform.Mock.Extractor.{
  ExtractRule, Extracted, nothing, value, invalid, extract, apply_rules,
}

-- The value of a name after a rule has extracted `x`.
abbrev pub after_rule : ExtractRule → Extracted → String → Option String → Option String
after_rule r (value v) name old = if r.as_name == name then some v else old
after_rule r nothing name old = old
after_rule r (invalid why) name old = old

Extracted-cases :
    (x : Extracted)
    → (x ≡ nothing) ⊎ ((v : String) × (x ≡ value v)) ⊎ ((why : String) × (x ≡ invalid why))
Extracted-cases nothing = inl refl
Extracted-cases (value v) = inr (inl (v, refl))
Extracted-cases (invalid why) = inr (inr (why, refl))

-- One write through the bag, as `apply_rules` makes it.
write-value :
    {S : Type 0} (bag : Bag S) (slug session : String) (laws : BagLaws bag slug session)
    (r : ExtractRule) (v name : String) (s : S)
    → (map_err (wrap "extractor_json: write: ") (bag.set slug session r.as_name v) s).0 ≡ ok tt
    → laws.value
        (map_err (wrap "extractor_json: write: ") (bag.set slug session r.as_name v) s).1
        name
      ≡ after_rule r (value v) name (laws.value s name)
write-value bag slug session laws r v name s h =
    let context = wrap "extractor_json: write: " in
    let call = bag.set slug session r.as_name v in
    let sent = map_err-ok context call s tt h in
    ap (λ t. laws.value t name) (map_err-state context call s)
    ∙ (elim (Bool-cases (r.as_name == name)) [
      | inl e ↦ rw e (
          ap (laws.value (call s).1) (sym ((eq_iff r.as_name name).0 e))
          ∙ laws.set_value r.as_name v s sent)
      | inr e ↦ rw e (
          laws.set_other r.as_name v s name (λ q. false≢true (sym e ∙ (eq_iff r.as_name name).1 q)))
    ])

module _ (std : Std) (gjson : String → String → Option String) (body : String) where
  -- The value that the last rule to write the name has extracted, and the old value without one.
  abbrev pub last_value : List ExtractRule → String → Option String → Option String
  last_value [] name old = old
  last_value (r ∷ rs) name old =
      last_value rs name (after_rule r (extract std gjson r body) name old)

  module _ {S : Type 0} (bag : Bag S) (slug session : String)
      (laws : BagLaws bag slug session) where
    -- Over a bag with the laws, after a run without an error every name holds the value of the last rule that wrote it, and a
    -- name that no rule wrote holds what it held before.
    pub apply_rules-last_value :
        (rules : List ExtractRule) (name : String) (s : S)
        → (apply_rules std gjson bag slug session body rules s).0 ≡ ok tt
        → laws.value (apply_rules std gjson bag slug session body rules s).1 name
          ≡ last_value rules name (laws.value s name)
    unfolding apply_rules
    apply_rules-last_value [] name s h = refl
    apply_rules-last_value (r ∷ rs) name s h = elim (Extracted-cases (extract std gjson r body)) [
      | inl e ↦ rw (e, apply_rules) (apply_rules-last_value rs name s (rw (e, apply_rules) at h))
      | inr (inl (v, e)) ↦
          let write = map_err (wrap "extractor_json: write: ") (bag.set slug session r.as_name v) in
          let rest = apply_rules std gjson bag slug session body rs in
          let (u, wrote, same) = bind-ok write (λ _. rest) s tt (rw (e, apply_rules) at h) in
          let after = (write s).1 in
          let done : (rest after).0 ≡ ok tt =
            ap (λ p. p.0) (sym same) ∙ (rw (e, apply_rules) at h) in
          rw (e, apply_rules)
            (ap (λ p. laws.value p.1 name) same
              ∙ apply_rules-last_value rs name after done
              ∙ ap (last_value rs name) (write-value bag slug session laws r v name s wrote))
      | inr (inr (why, e)) ↦ let failed = rw (e, apply_rules) at h in cc
    ]
