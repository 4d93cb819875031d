-- ===== src/Projects/Handlers.antt =====
-- backend/internal/api/project.go: the HTTP handlers of the projects, over the service.
use sentinel_api_platform.Prelude.{ℕ, String, List}
use sentinel_api_platform.Effects.{Call}
use sentinel_api_platform.Model.{Project, ProjectMember}
use sentinel_api_platform.Http.{Request, Handler, Binder, answer, with_user, with_body}

-- The interface `projectService`; the caller stands first, where a method is given one.
pub record ProjectService (S : Type 0) : Type 0 where
  pub create : String → String → String → String → Call S Project
  pub list : String → Call S (List Project)
  pub find_by_id : String → Call S Project
  pub update : String → String → String → String → Call S Project
  pub delete : String → String → Call S (Unit {0})
  pub add_member : String → String → String → String → Call S (Unit {0})
  pub list_members : String → Call S (List ProjectMember)

pub record CreateProjectRequest : Type 0 where
  pub name : String
  pub slug : String
  pub description : String

pub record UpdateProjectRequest : Type 0 where
  pub name : String
  pub description : String

pub record AddMemberRequest : Type 0 where
  pub user_id : String
  pub role : String

module _ {S : Type 0} (svc : ProjectService S) (driver : ℕ → String) where
  unfoldable pub create_project : Binder CreateProjectRequest → Request → Handler S Project
  create_project bind r = with_user r (λ caller.
      with_body driver bind r (λ q. answer driver (svc.create caller q.name q.slug q.description)))

  unfoldable pub list_projects : Request → Handler S (List Project)
  list_projects r = with_user r (λ caller. answer driver (svc.list caller))

  unfoldable pub get_project : Request → Handler S Project
  get_project r = with_user r (λ _. answer driver (svc.find_by_id (r.param "pid")))

  unfoldable pub update_project : Binder UpdateProjectRequest → Request → Handler S Project
  update_project bind r = with_user r (λ caller.
      with_body driver bind r
        (λ q. answer driver (svc.update caller (r.param "pid") q.name q.description)))

  unfoldable pub delete_project : Request → Handler S (Unit {0})
  delete_project r = with_user r (λ caller. answer driver (svc.delete caller (r.param "pid")))

  unfoldable pub add_project_member : Binder AddMemberRequest → Request → Handler S (Unit {0})
  add_project_member bind r = with_user r (λ caller.
      with_body driver bind r
        (λ q. answer driver (svc.add_member caller (r.param "pid") q.user_id q.role)))

  unfoldable pub list_project_members : Request → Handler S (List ProjectMember)
  list_project_members r = with_user r (λ _. answer driver (svc.list_members (r.param "pid")))
