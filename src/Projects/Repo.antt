-- ===== src/Projects/Repo.antt =====
-- backend/internal/repository/project_repo.go and project_member_repo.go: the rows of projects and
-- of project_members.
pub mod Laws
use sentinel_api_platform.Prelude.{ℕ, String, Bool, false, ◌&&◌, ◌==◌, List, if◌then◌else◌}
use sentinel_api_platform.Errs.{Error}
use sentinel_api_platform.Effects.{Result, ok, err, Call, pure, ◌>>=◌, ◌>>◌, map_err, wrap}
use sentinel_api_platform.Model.{Project, ProjectMember}
use sentinel_api_platform.Gorm.{Table, missing_or}
use sentinel_api_platform.Projects.Service.{ProjectStore, MemberStore}

abbrev pub unordered : {R : Type 0} → R → R → Bool
unordered a b = false

-- `save` is gorm's `Save`, which writes a row by its primary key.
module _ {S : Type 0} (table : Table S Project) (save : Project → Call S (Unit {0})) where
  unfoldable pub create : Project → Call S (Unit {0})
  create p = map_err (wrap "create project: ") (table.insert p)

  pub find_by_id : String → Call S Project
  find_by_id id =
      map_err (missing_or "project_repo: " "find project by id: ")
        (table.first_where (λ p. p.id == id))

  pub find_by_slug : String → Call S Project
  find_by_slug slug =
      map_err (missing_or "project_repo: " "find project by slug: ")
        (table.first_where (λ p. p.slug == slug))

  pub list_by_owner : String → Call S (List Project)
  list_by_owner owner =
      map_err (wrap "list projects by owner: ")
        (table.find_where (λ p. p.owner_id == owner) unordered)

  pub delete : String → Call S (Unit {0})
  delete id = map_err (wrap "delete project: ") (table.delete_where (λ p. p.id == id)) >> pure tt

  pub update : Project → Call S (Unit {0})
  update p = map_err (wrap "update project: ") (save p)

  abbrev pub project_store : ProjectStore S
  project_store = record {
    create = create;
    find_by_id = find_by_id;
    find_by_slug = find_by_slug;
    list_by_owner = list_by_owner;
    update = update;
    delete = delete;
  }

abbrev pub is_membership : String → String → ProjectMember → Bool
is_membership pid user m = m.project_id == pid && m.user_id == user

module _ {S : Type 0} (table : Table S ProjectMember) where
  unfoldable pub add : ProjectMember → Call S (Unit {0})
  add m = map_err (wrap "add project member: ") (table.insert m)

  -- The projects' repository's own insert of a member.
  pub add_member : ProjectMember → Call S (Unit {0})
  add_member m = map_err (wrap "add project member: ") (table.insert m)

  pub find : String → String → Call S ProjectMember
  find pid user =
      map_err (missing_or "project_member_repo: " "find project member: ")
        (table.first_where (is_membership pid user))

  pub list_by_project : String → Call S (List ProjectMember)
  list_by_project pid =
      map_err (wrap "list project members: ")
        (table.find_where (λ m. m.project_id == pid) unordered)

  pub remove : String → String → Call S (Unit {0})
  remove pid user =
      map_err (wrap "remove project member: ") (table.delete_where (is_membership pid user))
      >> pure tt

  abbrev pub member_store : MemberStore S
  member_store = record { add = add; list_by_project = list_by_project; find = find }
