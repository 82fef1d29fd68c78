-- ===== src/Server/Projects/Created.antt =====
-- A created project and its first reading (service/internal/server/handlers_projects.go).
use aifstudio.Prelude.{ℕ, String, ◌≡◌, refl, true, false, some, ◌∷◌, str_eq_refl, length}
use aifstudio.Text.{Text, trim_space}
use aifstudio.Auth.Tables.{User, fmt_time}
use aifstudio.Auth.Handlers.{byte_length}
use aifstudio.Store.Table.{find_row}
use aifstudio.Store.Table.Keys.{find_row-cons}
use aifstudio.Store.Rows.{Project, Db, has_user, project_row, scan_project}
use aifstudio.Store.Projects.{project_key, has_project, create_project}
use aifstudio.Server.Http.{replied, pass, checked, signed_in, is_id}
use aifstudio.Server.Http.Owned.{all_answer}
use aifstudio.Server.Projects.{
  CreateProjectRequest, ProjectResponse, decoded, valid_project, new_project, project_to_response,
  source_url_of, write_project, write_source, handle_create_project, handle_get_project,
}
use aifstudio.Server.Projects.Saved.{
  saved, saved-project, saved-source, put_project_source-saved, read_project,
}

abbrev pub trimmed : CreateProjectRequest → CreateProjectRequest
trimmed r = record r { name = trim_space r.name }

abbrev pub with_project : Project → Db → Db
with_project p db = record db { projects = project_row p ∷ db.projects }

created-project :
    (p : Project) (db : Db)
    → find_row project_key p.id (with_project p db).projects ≡ some (project_row p)
unfolding project_row
created-project p db =
    rw (find_row-cons project_key (project_row p) p.id db.projects, str_eq_refl p.id) refl

create_project-true :
    (p : Project) (db : Db)
    → has_project p.id db ≡ false
    → has_user p.owner_uid db ≡ true
    → create_project true p db ≡ (with_project p db, true)
unfolding create_project
create_project-true p db fresh known = rw (create_project, fresh, known) refl

write_project-saved :
    (p : Project) (source : Text) (now : ℕ) (resp : ProjectResponse) (db : Db)
    → has_project p.id db ≡ false
    → has_user p.owner_uid db ≡ true
    → write_project all_answer p source now resp db ≡ (
      saved p.id source now (with_project p db),
      replied 201 (record resp { source_url = source_url_of p.id }),
    )
unfolding write_project write_source
write_project-saved p source now resp db fresh known =
    rw
      (
        write_project,
        create_project-true p db fresh known,
        write_source,
        put_project_source-saved p.id source now (with_project p db) (project_row p)
            (created-project p db),
      )
      refl

-- For a known caller, a request that passes the checks and a new id of the right form, when the
-- database answers each call: handleCreateProject answers 201 with the project and the bytes and
-- address of its source, and after it the GET of the project shows the trimmed name, the description
-- and the times cut to whole seconds, with the length of the source in characters.
pub handle_create_project-get :
    (u : User) (r : CreateProjectRequest) (id : String) (now : ℕ) (db : Db)
    → valid_project (trimmed r) ≡ pass tt
    → is_id b'p' id ≡ true
    → has_project id db ≡ false
    → has_user u.uid db ≡ true
    → (after : Db) × (handle_create_project all_answer true (some u) (some r) id now db ≡ (
      after,
      replied 201 (record (project_to_response (new_project id u.uid (trimmed r) now)) {
        source_bytes = byte_length r.source;
        source_url = source_url_of id;
      }),
    ))
      × (handle_get_project all_answer true (some u) id after
          ≡ replied 200
              (record (project_to_response
                (scan_project (project_row (new_project id u.uid (trimmed r) now)))) {
                  source_bytes = length r.source;
                  source_url = source_url_of id;
                }))
unfolding handle_create_project checked signed_in decoded project_row scan_project
handle_create_project-get u r id now db valid i fresh known =
    let p = new_project id u.uid (trimmed r) now in
    let there = created-project p db in
    (
      saved id r.source now (with_project p db),
      rw (handle_create_project, valid) (write_project-saved p r.source now _ db fresh known),
      read_project u id r.source (saved id r.source now (with_project p db))
          (record (project_row p) { updated_at = fmt_time now }) i
          (saved-project id r.source now (with_project p db) (project_row p) there)
          (str_eq_refl u.uid) (saved-source id r.source now (with_project p db)),
    )
