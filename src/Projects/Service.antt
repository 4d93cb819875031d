-- ===== src/Projects/Service.antt =====
-- backend/internal/service/project_service.go: projects and their members, over the two stores.
pub mod Laws
use sentinel_api_platform.Prelude.{
  String, Bool, true, false, not, ◌&&◌, ◌||◌, ◌==◌, List, trim_space, if◌then◌else◌,
}
use sentinel_api_platform.Errs.{
  Error, Sentinel, sentinel, wrapped, is, not_found, bad_request, forbidden, conflict,
}
use sentinel_api_platform.Effects.{
  Result, ok, err, Call, pure, throw, guard, ◌>>=◌, ◌>>◌, map_err, sentinel_or, wrap,
}
use sentinel_api_platform.Model.{Project, ProjectMember}

-- The interfaces `projectStore` and `projectMemberStore`.
pub record ProjectStore (S : Type 0) : Type 0 where
  pub create : Project → Call S (Unit {0})
  pub find_by_id : String → Call S Project
  pub find_by_slug : String → Call S Project
  pub list_by_owner : String → Call S (List Project)
  pub update : Project → Call S (Unit {0})
  pub delete : String → Call S (Unit {0})

pub record MemberStore (S : Type 0) : Type 0 where
  pub add : ProjectMember → Call S (Unit {0})
  pub list_by_project : String → Call S (List ProjectMember)
  pub find : String → String → Call S ProjectMember

abbrev pub is_valid_project_role : String → Bool
is_valid_project_role role = role == "admin" || role == "engineer" || role == "viewer"

abbrev pub keep_or : String → String → String
keep_or old new = if new == "" then old else new

module _ {S : Type 0} (projects : ProjectStore S) (members : MemberStore S) where
  -- the lookup of a member in `RoleFor`: no row is no role
  unfoldable pub member_role : String → String → Call S String
  member_role pid user s =
      let (found, s') = members.find pid user s in
      elim found [
        | ok m ↦ (ok m.role, s')
        | err e ↦ (if is e not_found then ok "" else err (wrap "find member: " e), s')
      ]

  unfoldable pub role_for : String → String → Call S String
  unfolding member_role
  role_for pid user = do
    p ← map_err (sentinel_or not_found "find project for role: ") (projects.find_by_id pid)
    if p.owner_id == user then pure "admin" else member_role pid user

  -- `id` is the one that `id.New` gives
  pub add_owner : Project → Call S Project
  add_owner p = do
    map_err (wrap "add owner as admin member: ")
        (members.add (record { project_id = p.id; user_id = p.owner_id; role = "admin" }))
    pure p

  unfoldable pub new_project : String → String → String → String → String → Project
  new_project id owner name slug description = record {
    id = id;
    name = trim_space name;
    slug = trim_space slug;
    owner_id = owner;
    description = trim_space description;
  }

  unfoldable pub create : String → String → String → String → String → Call S Project
  create id owner name slug description = do
    guard (not (trim_space name == "") && not (trim_space slug == ""))
        (wrapped "" (sentinel bad_request) ": name and slug are required")
    map_err (sentinel_or conflict "create project: ")
        (projects.create (new_project id owner name slug description))
    add_owner (new_project id owner name slug description)

  pub find_by_id : String → Call S Project
  find_by_id pid = map_err (sentinel_or not_found "find project: ") (projects.find_by_id pid)

  pub find_by_slug : String → Call S Project
  find_by_slug slug =
      map_err (sentinel_or not_found "find project by slug: ") (projects.find_by_slug slug)

  pub list : String → Call S (List Project)
  list owner = map_err (wrap "list projects: ") (projects.list_by_owner owner)

  -- The names are only replaced by texts that are not blank.
  pub revise : String → String → Project → Project
  revise name description p = record p {
    name = keep_or p.name (trim_space name);
    description = keep_or p.description (trim_space description);
  }

  pub store_revised : String → String → Project → Call S Project
  store_revised name description p = do
    map_err (wrap "update project: ") (projects.update (revise name description p))
    pure (revise name description p)

  pub update : String → String → String → String → Call S Project
  update caller pid name description = do
    role ← role_for pid caller
    guard (role == "admin") (sentinel forbidden)
    p ← map_err (sentinel_or not_found "find project: ") (projects.find_by_id pid)
    store_revised name description p

  pub delete : String → String → Call S (Unit {0})
  delete caller pid = do
    p ← map_err (sentinel_or not_found "find project: ") (projects.find_by_id pid)
    guard (p.owner_id == caller) (sentinel forbidden)
    map_err (wrap "delete project: ") (projects.delete pid)

  unfoldable pub add_member : String → String → String → String → Call S (Unit {0})
  add_member caller pid user role = do
    caller_role ← role_for pid caller
    guard (caller_role == "admin") (sentinel forbidden)
    guard (is_valid_project_role role)
        (wrapped "" (sentinel bad_request) ": role must be admin/engineer/viewer")
    members.add (record { project_id = pid; user_id = user; role = role })

  pub list_members : String → Call S (List ProjectMember)
  list_members pid = map_err (wrap "list members: ") (members.list_by_project pid)
