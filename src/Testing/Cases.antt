-- ===== src/Testing/Cases.antt =====
-- backend/internal/service/test_case_service.go: the test cases of a project.
use sentinel_api_platform.Prelude.{String, List}
use sentinel_api_platform.Errs.{sentinel, forbidden}
use sentinel_api_platform.Effects.{Call, pure, guard, draw, ◌>>=◌, ◌>>◌, map_err, wrap}
use sentinel_api_platform.Model.{TestCase, Columns}
use sentinel_api_platform.Apis.Service.{RoleChecker, is_editor}

-- The interface `testCaseStore`.
pub record CaseStore (S : Type 0) : Type 0 where
  pub create : TestCase → Call S (Unit {0})
  pub find_by_id : String → Call S TestCase
  pub list_by_project : String → Call S (List TestCase)
  pub update : String → Columns → Call S (Unit {0})
  pub delete : String → Call S (Unit {0})

-- The check of the caller, which the test runs share.
unfoldable pub checked_role : {S A : Type 0} → RoleChecker S → String → String → Call S A → Call S A
checked_role role_for caller pid k = do
  role ← map_err (wrap "check role: ") (role_for pid caller)
  guard (is_editor role) (sentinel forbidden)
  k

module _ {S : Type 0} (cases : CaseStore S) (role_for : RoleChecker S)
    (new_id : S → String × S) where
  pub store_case : String → TestCase → Call S TestCase
  store_case pid tc = do
    id ← draw new_id
    cases.create (record tc { id = id; project_id = pid })
    pure (record tc { id = id; project_id = pid })

  unfoldable pub create : String → String → TestCase → Call S TestCase
  create caller pid tc = checked_role role_for caller pid (store_case pid tc)

  unfoldable pub list_by_project : String → Call S (List TestCase)
  list_by_project pid = cases.list_by_project pid

  unfoldable pub find_by_id : String → Call S TestCase
  find_by_id id = cases.find_by_id id

  pub change_case : String → Columns → Call S TestCase
  change_case id fields = cases.update id fields >> cases.find_by_id id

  unfoldable pub update : String → String → String → Columns → Call S TestCase
  update caller pid id fields = checked_role role_for caller pid (change_case id fields)

  unfoldable pub delete : String → String → String → Call S (Unit {0})
  delete caller pid id = checked_role role_for caller pid (cases.delete id)
