-- ===== src/Rules/Handlers/Laws.antt =====
-- The handlers of the mock rules with the rule service and the project service, as
-- backend/cmd/server/main.go wires them.
mod Tests
use sentinel_api_platform.Prelude.{
  ℕ, ◌≡◌, refl, ap, ◌∙◌, String, Bool, true, false, ◌==◌, if◌then◌else◌, ◌||◌, Bool-cases,
}
use mathlib.Core.Path.{subst}
use sentinel_api_platform.Errs.{
  Error, sentinel, wrapped, is, not_found, forbidden, text, sentinel_text,
}
use sentinel_api_platform.Errs.Mapper.{fail, write_error}
use sentinel_api_platform.Effects.{
  Result, ok, err, Call, pure, guard, ◌>>=◌, ◌>>◌, map_err, sentinel_or, bind-failed,
  map_err-failed,
}
use sentinel_api_platform.Model.{Project, MockRule, Columns}
use sentinel_api_platform.Http.{Request, Reply, failed, Binder, answer, reply_of, with_body}
use sentinel_api_platform.Projects.Service.{ProjectStore, MemberStore, role_for, member_role}
use sentinel_api_platform.Apis.Service.{RoleChecker, is_editor, require_editor}
use sentinel_api_platform.Rules.Service.{
  RuleStore, CreateRuleSpec, create, create_checked, update, update_checked, delete, delete_checked,
}
use sentinel_api_platform.Rules.Handlers.{rule_service, create_rule, update_rule, delete_rule}

-- The answer that a handler gives, which leaves the state as it was.
abbrev pub NotFound : {S A : Type 0} → Reply A × S → S → Type 0
NotFound x s = x ≡ (failed (fail 404 40400 "record not found"), s)

answer-NotFound :
    {S A : Type 0} (driver : ℕ → String) (call : Call S A) (s : S)
    → call s ≡ (err (sentinel not_found), s)
    → NotFound (answer driver call s) s
unfolding reply_of write_error text sentinel_text
answer-NotFound driver call s h = ap (λ x. (reply_of driver x.0, x.1)) h

module _ {S : Type 0} (projects : ProjectStore S) (members : MemberStore S) where
  role_for-missing :
      (pid user : String) (s : S) (e : Error)
      → projects.find_by_id pid s ≡ (err e, s)
      → is e not_found ≡ true
      → role_for projects members pid user s ≡ (err (sentinel not_found), s)
  unfolding role_for
  role_for-missing pid user s e h missing =
      let context = sentinel_or not_found "find project for role: " in
      let next : Project → Call S String =
        λ p. if p.owner_id == user then pure "admin" else member_role projects members pid user in
      let found : map_err context (projects.find_by_id pid) s ≡ (err (sentinel not_found), s) =
        subst (λ x. map_err context (projects.find_by_id pid) s ≡ (err x, s)) (rw missing refl)
          (map_err-failed context (projects.find_by_id pid) s e h) in
      bind-failed (map_err context (projects.find_by_id pid)) next s (sentinel not_found) found

  module _ (rules : RuleStore S) (new_id : S → String × S) (valid : String → Bool)
      (driver : ℕ → String) where
    editor-missing :
        {A : Type 0} (user : String) (k : Call S A) (s : S)
        → role_for projects members "" user s ≡ (err (sentinel not_found), s)
        → NotFound (answer driver (require_editor (role_for projects members) user "" k) s) s
    unfolding require_editor
    editor-missing user k s h =
        answer-NotFound driver (require_editor (role_for projects members) user "" k) s (
          bind-failed (role_for projects members "" user)
            (λ role. guard (is_editor role) (sentinel forbidden) >> k) s (sentinel not_found) h)

    -- Where no project has the empty text as its id, a request to
    -- create, to update or to delete a rule is answered with 404 and changes nothing, whoever sends
    -- it, as long as its body can be read and it names an API where one is needed.
    pub rule_routes_refuse :
        (r : Request) (s : S) (e : Error) (read_spec : Binder CreateRuleSpec)
        (spec : CreateRuleSpec) (read_fields : Binder Columns) (fields : Columns)
        → projects.find_by_id "" s ≡ (err e, s)
        → is e not_found ≡ true
        → read_spec r.body ≡ ok spec
        → read_fields r.body ≡ ok fields
        → (r.query "api_id" == "") ≡ false
        → let svc = rule_service rules (role_for projects members) new_id valid in
          NotFound (create_rule svc driver read_spec r s) s
          × NotFound (update_rule svc driver read_fields r s) s
          × NotFound (delete_rule svc driver r s) s
    unfolding create_rule update_rule delete_rule create update delete
    rule_routes_refuse r s e read_spec spec read_fields fields h missing spec_read fields_read
          named =
        let role = role_for-missing "" r.user_id s e h missing in
        (
          rw named (
              rw (spec_read, with_body)
                (editor-missing r.user_id
                  (create_checked rules (role_for projects members) new_id valid (r.query "api_id")
                    spec)
                  s role)),
          rw (fields_read, update_rule, with_body)
              (editor-missing r.user_id
                (update_checked rules (role_for projects members) new_id valid (r.param "rid")
                  fields)
                s role),
          editor-missing r.user_id
              (delete_checked rules (role_for projects members) new_id valid (r.param "rid")) s
              role,
        )
