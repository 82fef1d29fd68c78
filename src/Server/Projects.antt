-- ===== src/Server/Projects.antt =====
-- The handlers of projects (service/internal/server/handlers_projects.go) and of PUT …/source
-- (service/internal/server/handlers_history.go). A time stands for its text.
pub mod Saved
pub mod Created
use aifstudio.Prelude.{
  ℕ, String, Bool, true, false, not, ◌&&◌, ◌||◌, List, [], ◌∷◌, ◌++◌, Option, none, some, ltb, ◌==◌,
  str_eq, map, length, if◌then◌else◌,
}
use aifstudio.Text.{Text, text, trim_space}
use aifstudio.Auth.Tables.{User, Result, ok, err}
use aifstudio.Auth.Handlers.{byte_length}
use aifstudio.Store.Rows.{Project, Db}
use aifstudio.Store.Projects.{
  create_project, get_project, get_project_source, get_project_source_size, put_project_source,
  update_project_meta, list_projects_by_owner,
}
use aifstudio.Server.Http.{
  Reply, refused, replied, Check, stop, pass, checked, reply_to, and_then, signed_in, require,
  is_id, Answers, own_project, open_project,
}

pub record CreateProjectRequest : Type 0 where
  pub name : Text
  pub description : Text
  pub source : Text

pub record ProjectResponse : Type 0 where
  pub id : String
  pub owner_uid : String
  pub name : Text
  pub description : Text
  pub created_at : ℕ
  pub updated_at : ℕ
  pub latest_build_id : String
  pub published : Bool
  pub published_at : Option ℕ
  pub source_bytes : ℕ
  pub source_url : Text

pub record ListProjectResponse : Type 0 where
  pub id : String
  pub name : Text
  pub description : Text
  pub published : Bool
  pub latest_build_id : String
  pub created_at : ℕ
  pub updated_at : ℕ

pub record UpdateSourceResponse : Type 0 where
  pub id : String
  pub updated_at : ℕ
  pub source_bytes : ℕ

pub record MetaResponse : Type 0 where
  pub name : Text
  pub description : Text
  pub updated_at : ℕ

-- projectToResponse
unfoldable pub project_to_response : Project → ProjectResponse
project_to_response p = record {
  id = p.id;
  owner_uid = p.owner_uid;
  name = p.name;
  description = p.description;
  created_at = p.created_at;
  updated_at = p.updated_at;
  latest_build_id = p.latest_build_id;
  published = p.published;
  published_at = p.published_at;
  source_bytes = 0;
  source_url = [];
}

-- projectToListResponse
unfoldable pub project_to_list_response : Project → ListProjectResponse
project_to_list_response p = record {
  id = p.id;
  name = p.name;
  description = p.description;
  published = p.published;
  latest_build_id = p.latest_build_id;
  created_at = p.created_at;
  updated_at = p.updated_at;
}

abbrev pub source_url_of : String → Text
source_url_of id = text "/api/projects/" ++ (text id ++ text "/source")

-- The checks of handleCreateProject on the trimmed request.
unfoldable pub valid_project : CreateProjectRequest → Check Unit
valid_project r =
    if byte_length r.name == 0 || ltb 80 (byte_length r.name)
    then stop 400 "invalid_name"
    else if ltb 2000 (byte_length r.description)
    then stop 400 "invalid_description"
    else if ltb 500000 (byte_length r.source)
    then stop 413 "source_too_large"
    else pass tt

unfoldable pub decoded : {A : Type 0} → Option A → Check A
decoded none = stop 400 "invalid_body"
decoded (some a) = pass a

abbrev pub new_project : String → String → CreateProjectRequest → ℕ → Project
new_project id uid r now = record {
  id = id;
  owner_uid = uid;
  name = r.name;
  description = r.description;
  created_at = now;
  updated_at = now;
  latest_build_id = "";
  published = false;
  published_at = none;
}

-- The writes of handleCreateProject. A project whose source cannot be written stays.
unfoldable pub write_source :
    Answers → String → Text → ℕ → ProjectResponse → Db → Db × Reply ProjectResponse
write_source a id source now resp db =
    let (db1, written) = put_project_source a.put_source id source now db in
    if written
    then (db1, replied 201 (record resp { source_url = source_url_of id }))
    else (db1, refused 502 "gcs_upload_failed")

unfoldable pub write_project :
    Answers → Project → Text → ℕ → ProjectResponse → Db → Db × Reply ProjectResponse
write_project a p source now resp db =
    let (db1, created) = create_project a.create_project p db in
    if created then write_source a p.id source now resp db1 else (db1, refused 500 "internal")

-- handleCreateProject, with the new id and the time.
unfoldable pub handle_create_project :
    Answers
    → Bool
    → Option User
    → Option CreateProjectRequest
    → String
    → ℕ
    → Db
    → Db × Reply ProjectResponse
handle_create_project a has_store user body id now db = checked (signed_in user) db (λ u.
    checked (decoded body) db (λ sent.
      let r = record sent { name = trim_space sent.name } in
      let p = new_project id u.uid r now in
      let resp = record (project_to_response p) { source_bytes = byte_length r.source } in
      checked (valid_project r) db (λ _.
        if has_store then write_project a p r.source now resp db else (db, replied 201 resp))))

-- handleGetProject. Without a row for the source there is nothing to migrate either.
unfoldable pub with_source : Answers → String → Db → ProjectResponse → ProjectResponse
with_source a id db resp = elim (get_project_source_size a.source_size id db) [
  | err _ ↦ resp
  | ok (some size) ↦ record resp { source_bytes = size; source_url = source_url_of id }
  | ok none ↦ elim (get_project_source a.get_source id db) [
    | err _ ↦ resp
    | ok source ↦
        if byte_length source == 0
        then resp
        else record resp { source_bytes = byte_length source; source_url = source_url_of id }
  ]
]

unfoldable pub handle_get_project :
    Answers → Bool → Option User → String → Db → Reply ProjectResponse
handle_get_project a has_store user id db =
    reply_to (open_project a has_store user id db)
      (λ (u, p). replied 200 (with_source a id db (project_to_response p)))

-- handleListProjects
unfoldable pub handle_list_projects :
    Answers → Bool → Option User → Db → Reply (List ListProjectResponse)
handle_list_projects a has_store user db = reply_to (signed_in user) (λ u. elim has_store [
  | false ↦ replied 200 []
  | true ↦ elim (list_projects_by_owner a.list_projects u.uid 100 db) [
    | err _ ↦ refused 500 "internal"
    | ok projects ↦ replied 200 (map project_to_list_response projects)
  ]
])

pub record PatchProjectRequest : Type 0 where
  pub name : Text
  pub description : Text

-- handlePatchProject: no check of the id, and an error of the store is a missing project.
unfoldable pub found_own_project : Answers → String → String → Db → Check Project
found_own_project a uid id db = elim (get_project a.get_project id db) [
  | err _ ↦ stop 404 "not_found"
  | ok found ↦ elim found [
    | none ↦ stop 404 "not_found"
    | some p ↦ if str_eq p.owner_uid uid then pass p else stop 403 "forbidden"
  ]
]

unfoldable pub valid_meta : PatchProjectRequest → Check Unit
valid_meta r =
    if byte_length r.name == 0
    then stop 400 "name_required"
    else if ltb 120 (byte_length r.name)
    then stop 400 "name_too_long"
    else pass tt

abbrev pub decoded_json : {A : Type 0} → Option A → Check A
decoded_json none = stop 400 "invalid_json"
decoded_json (some a) = pass a

unfoldable pub handle_patch_project :
    Answers → Option User → String → Option PatchProjectRequest → ℕ → Db → Db × Reply MetaResponse
handle_patch_project a user id body now db = checked (signed_in user) db (λ u.
    checked (found_own_project a u.uid id db) db (λ _. checked (decoded_json body) db (λ sent.
      let r : PatchProjectRequest = record {
        name = trim_space sent.name;
        description = trim_space sent.description;
      } in
      checked (valid_meta r) db (λ _.
        let (db1, updated) = update_project_meta a.update_meta id r.name r.description now db in
        if updated
        then (
          db1,
          replied 200 (record { name = r.name; description = r.description; updated_at = now }),
        )
        else (db1, refused 500 "internal")))))

-- The start of the two handlers that write a source.
unfoldable pub small_source : Text → Check Unit
small_source source =
    if ltb 500000 (byte_length source) then stop 413 "source_too_large" else pass tt

unfoldable pub open_for_source :
    Answers → Bool → Option User → String → Option Text → Db → Check Text
open_for_source a has_store user id body db = and_then (signed_in user) (λ u.
    and_then (require (is_id b'p' id) 400 "invalid_id") (λ _. and_then (decoded body) (λ source.
      and_then (small_source source) (λ _.
        and_then (require has_store 404 "not_found")
          (λ _. and_then (own_project a u.uid id db) (λ _. pass source))))))

-- handlePatchProjectSource
unfoldable pub handle_patch_project_source :
    Answers → Bool → Option User → String → Option Text → ℕ → Db → Db × Reply UpdateSourceResponse
handle_patch_project_source a has_store user id body now db =
    checked (open_for_source a has_store user id body db) db (λ source.
      let (db1, written) = put_project_source a.put_source id source now db in
      if written
      then (
        db1,
        replied 200 (record { id = id; updated_at = now; source_bytes = byte_length source }),
      )
      else (db1, refused 502 "gcs_upload_failed"))

-- handlePutProjectSource
unfoldable pub handle_put_project_source :
    Answers → Bool → Option User → String → Option Text → ℕ → Db → Db × Reply Unit
handle_put_project_source a has_store user id body now db =
    checked (open_for_source a has_store user id body db) db (λ source.
      let (db1, written) = put_project_source a.put_source id source now db in
      if written then (db1, replied 204 tt) else (db1, refused 502 "gcs_upload_failed"))

-- handleGetProjectSource
unfoldable pub handle_get_project_source : Answers → Bool → Option User → String → Db → Reply Text
handle_get_project_source a has_store user id db =
    reply_to (open_project a has_store user id db) (λ _.
      elim (get_project_source a.get_source id db) [
        | err _ ↦ refused 500 "internal"
        | ok source ↦ replied 200 source
      ])
