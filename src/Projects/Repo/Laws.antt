-- ===== src/Projects/Repo/Laws.antt =====
-- The project service over its repositories, where the database refuses a duplicate.
mod Tests
use sentinel_api_platform.Prelude.{
  ℕ, ◌≡◌, refl, ap, ◌∙◌, String, Bool, true, false, not, ◌&&◌, ◌==◌, trim_space, if◌then◌else◌,
}
use sentinel_api_platform.Errs.{
  Error, sentinel, wrapped, mysql_error, is, bad_request, forbidden, conflict,
}
use sentinel_api_platform.Errs.Mapper.{fail, write_error}
use sentinel_api_platform.Effects.{
  Result, ok, err, Call, pure, guard, ◌>>=◌, ◌>>◌, map_err, sentinel_or, wrap, map_err-err_of,
  bind-err_of, bind-ok_of,
}
use sentinel_api_platform.Model.{Project, ProjectMember}
use sentinel_api_platform.Gorm.{Table}
use sentinel_api_platform.Http.{Reply, failed, reply_of}
use sentinel_api_platform.Projects.Service.{role_for, is_valid_project_role, new_project, add_owner}
use sentinel_api_platform.Projects.Service
use sentinel_api_platform.Projects.Repo.{create, add, project_store, member_store}

module _ {S : Type 0} (projects : Table S Project) (save : Project → Call S (Unit {0}))
    (members : Table S ProjectMember) (driver : ℕ → String) where
  abbrev pub Internal : {A : Type 0} → Result A → Type 0
  Internal r = reply_of driver r ≡ failed (fail 500 50000 "internal server error")

  -- A project with a name and a slug whose row the database refuses, by the number of its error, is answered with 500 and
  -- no detail: a slug that is taken is no conflict for the client.
  pub project_duplicate-Internal :
      (n : ℕ) (s : S) (id owner name slug description : String)
      → (trim_space name == "") ≡ false
      → (trim_space slug == "") ≡ false
      → (projects.insert
          (new_project
            (project_store projects save)
            (member_store members)
            id
            owner
            name
            slug
            description)
          s).0
        ≡ err (mysql_error n)
      → Internal
          (Service.create
            (project_store projects save)
            (member_store members)
            id
            owner
            name
            slug
            description
            s).0
  unfolding Service.create create reply_of write_error
  project_duplicate-Internal n s id owner name slug description named slugged refused =
      let p =
        new_project (project_store projects save) (member_store members) id owner name slug
          description in
      let cause = wrapped "create project: " (mysql_error n) "" in
      let first = map_err (sentinel_or conflict "create project: ") (create projects save p) in
      let made : (first s).0 ≡ err (wrapped "create project: " cause "") =
        map_err-err_of (sentinel_or conflict "create project: ") (create projects save p) s cause (
          map_err-err_of (wrap "create project: ") (projects.insert p) s (mysql_error n) refused) in
      let stopped =
        bind-err_of first (λ _. add_owner (project_store projects save) (member_store members) p) s
          (wrapped "create project: " cause "") made in
      let answered : (Service.create (project_store projects save) (member_store members) id owner
            name slug description s).0
          ≡ err (wrapped "create project: " cause "") =
        rw (named, Service.create, slugged) stopped in
      ap (reply_of driver) answered

  -- So is a member whose row the database refuses.
  pub member_duplicate-Internal :
      (n : ℕ) (s : S) (caller pid user role : String) (t : S)
      → role_for (project_store projects save) (member_store members) pid caller s ≡ (ok "admin", t)
      → is_valid_project_role role ≡ true
      → (members.insert (record { project_id = pid; user_id = user; role = role }) t).0
        ≡ err (mysql_error n)
      → Internal
          (Service.add_member
            (project_store projects save)
            (member_store members)
            caller
            pid
            user
            role
            s).0
  unfolding Service.add_member add reply_of write_error
  member_duplicate-Internal n s caller pid user role t known valid refused =
      let m : ProjectMember = record { project_id = pid; user_id = user; role = role } in
      let role_of = role_for (project_store projects save) (member_store members) pid caller in
      let first : (role_of s).0 ≡ ok "admin" = ap (λ x. x.0) known in
      let stopped : (add members m (role_of s).1).0
          ≡ err (wrapped "add project member: " (mysql_error n) "") =
        map_err-err_of (wrap "add project member: ") (members.insert m) (role_of s).1
          (mysql_error n) (ap (λ x. (members.insert m x.1).0) known ∙ refused) in
      let answered : (Service.add_member (project_store projects save) (member_store members) caller
            pid user role s).0
          ≡ err (wrapped "add project member: " (mysql_error n) "") =
        rw (first, Service.add_member, ◌>>=◌) (rw valid stopped) in
      ap (reply_of driver) answered
