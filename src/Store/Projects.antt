-- ===== src/Store/Projects.antt =====
-- Projects and their sources of SQLiteStore (service/internal/store/sqlite.go). Deleting a project
-- deletes the rows of its sources, turns and builds, as the schema says.
use aifstudio.Prelude.{
  ℕ, String, Bool, true, false, not, ◌||◌, List, [], ◌∷◌, Option, none, some, is_some, ltb, str_eq,
  map, length, if◌then◌else◌,
}
use aifstudio.Text.{Text}
use aifstudio.Auth.Tables.{Result, ok, err, store_error, fmt_time}
use aifstudio.Store.Table.{delete_where, update_where, top, desc, find_row, has_key}
use aifstudio.Store.Rows.{Project, Source, AiTurn, Build, Db, has_user, project_row, scan_project}
use aifstudio.Store.Runs.{clamp}

abbrev pub project_key : Project → String
project_key p = p.id

abbrev pub source_key : Source → String
source_key s = s.project_id

-- REFERENCES projects(id)
unfoldable pub has_project : String → Db → Bool
has_project pid db = is_some (find_row project_key pid db.projects)

-- CreateProject
unfoldable pub create_project : Bool → Project → Db → Db × Bool
create_project answers p db =
    if not answers || has_project p.id db || not (has_user p.owner_uid db)
    then (db, false)
    else (record db { projects = project_row p ∷ db.projects }, true)

unfoldable pub scanned : Option Project → Option Project
scanned none = none
scanned (some p) = some (scan_project p)

-- GetProject
unfoldable pub get_project : Bool → String → Db → Result (Option Project)
get_project answers id db =
    if answers then ok (scanned (find_row project_key id db.projects)) else err store_error

-- UPDATE projects SET … WHERE id=?
unfoldable pub set_project : String → (Project → Project) → Db → Db
set_project id f db = record db { projects = update_where (has_key project_key id) f db.projects }

-- UpdateProjectMeta
unfoldable pub update_project_meta : Bool → String → Text → Text → ℕ → Db → Db × Bool
update_project_meta answers id name description updated_at db =
    if answers
    then (
      set_project id
          (λ p. record p {
            name = name;
            description = description;
            updated_at = fmt_time updated_at;
          })
          db,
      true,
    )
    else (db, false)

-- UpdateProjectLatestBuild
unfoldable pub update_project_latest_build : Bool → String → String → Db → Db × Bool
update_project_latest_build answers id build_id db =
    if answers
    then (set_project id (λ p. record p { latest_build_id = build_id }) db, true)
    else (db, false)

abbrev pub project_of : String → Project → Bool
project_of uid p = str_eq p.owner_uid uid

-- ListProjectsByOwner; collectProjects scans the rows.
unfoldable pub list_projects_by_owner : Bool → String → ℕ → Db → Result (List Project)
list_projects_by_owner answers uid limit db =
    if answers
    then ok (
        map scan_project (
          top (project_of uid) (desc (λ p. p.updated_at)) (if ltb limit 1 then 1 else limit)
            db.projects))
    else err store_error

-- SetProjectPublished: unpublishing leaves the time of publishing.
unfoldable pub set_project_published : Bool → String → Bool → ℕ → Db → Db × Bool
set_project_published false id published now db = (db, false)
set_project_published true id true now db = (
  set_project id (λ p. record p { published = true; published_at = some (fmt_time now) }) db,
  true,
)
set_project_published true id false now db =
    (set_project id (λ p. record p { published = false }) db, true)

abbrev pub published_time : Project → ℕ
published_time p = elim p.published_at [ none ↦ 0 | some t ↦ t ]

-- ListPublishedProjects; a row without a time comes last.
unfoldable pub list_published_projects : Bool → ℕ → Db → Result (List Project)
list_published_projects answers limit db =
    if answers
    then ok (
        map scan_project
          (top (λ p. p.published) (desc published_time) (clamp 1 50 limit) db.projects))
    else err store_error

-- GetProjectSource
unfoldable pub get_project_source : Bool → String → Db → Result Text
get_project_source answers pid db =
    if answers
    then ok (elim (find_row source_key pid db.sources) [ none ↦ [] | some s ↦ s.source ])
    else err store_error

-- The upsert of PutProjectSource.
unfoldable pub upsert_source : Source → List Source → List Source
upsert_source s rows = elim (find_row source_key s.project_id rows) [
  | none ↦ s ∷ rows
  | some _ ↦ update_where (has_key source_key s.project_id) (λ _. s) rows
]

-- PutProjectSource: one transaction, which `answers` is about as a whole.
unfoldable pub put_project_source : Bool → String → Text → ℕ → Db → Db × Bool
put_project_source answers pid source updated_at db =
    if not answers || not (has_project pid db) then (db, false) else (
      set_project pid (λ p. record p { updated_at = fmt_time updated_at })
          (record db {
            sources = upsert_source (record { project_id = pid; source = source }) db.sources;
          }),
      true,
    )

-- UpdateProjectSource
unfoldable pub update_project_source : Bool → String → Text → ℕ → Db → Db × Bool
update_project_source = put_project_source

-- DeleteProjectSource
unfoldable pub delete_project_source : Bool → String → Db → Db × Bool
delete_project_source answers pid db =
    if answers
    then (record db { sources = delete_where (has_key source_key pid) db.sources }, true)
    else (db, false)

-- GetProjectSourceSize: `length` of SQL counts characters; `none` without a row.
unfoldable pub get_project_source_size : Bool → String → Db → Result (Option ℕ)
get_project_source_size answers pid db =
    if answers
    then ok (elim (find_row source_key pid db.sources) [
      | none ↦ none
      | some s ↦ some (length s.source)
    ])
    else err store_error

abbrev pub turn_of : String → AiTurn → Bool
turn_of pid t = str_eq t.project_id pid

abbrev pub build_of : String → Build → Bool
build_of pid b = str_eq b.project_id pid

-- DeleteProject
unfoldable pub delete_project : Bool → String → Db → Db × Bool
delete_project answers id db =
    if answers
    then (
      record db {
        projects = delete_where (has_key project_key id) db.projects;
        sources = delete_where (has_key source_key id) db.sources;
        turns = delete_where (turn_of id) db.turns;
        builds = delete_where (build_of id) db.builds;
      },
      true,
    )
    else (db, false)
