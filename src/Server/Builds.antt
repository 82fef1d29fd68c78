-- ===== src/Server/Builds.antt =====
-- The handlers of builds (service/internal/server/handlers_projects.go and handlers_builds.go). The
-- goroutine that StartBuild leaves is a started job.
pub mod Test
pub mod Twice
pub mod Report
use aifstudio.Prelude.{
  ℕ, ◌-◌, ◌/◌, String, Bool, true, false, not, ◌&&◌, ◌||◌, List, [], ◌∷◌, ◌++◌, Option, none, some,
  str_eq, is_some, if◌then◌else◌,
}
use aifstudio.Text.{Text, text, text_eq, contains, to_lower}
use aifstudio.Auth.Tables.{User, Result, ok, err}
use aifstudio.Store.Rows.{Project, Build, Db}
use aifstudio.Store.Projects.{get_project_source}
use aifstudio.Store.Records.{create_build, get_build, list_builds_by_project}
use aifstudio.Store.Blobs.{Files, download_blob}
use aifstudio.Build.Slots.{Manager, claim, clear_active, active_build_id}
use aifstudio.Build.Job.{status_pending, status_running}
use aifstudio.Server.Http.{
  Reply, refused, replied, Check, stop, pass, checked, reply_to, and_then, signed_in, require,
  is_id, Answers, open_project,
}
use aifstudio.Server.Cascade.{BlobWorld, Storage}

-- The server with its builder, if it has one, and the jobs started so far, the last one first.
pub record BuildState : Type 0 where
  pub db : Db
  pub builder : Option Manager
  pub jobs : List (Build × Text)

pub record CreateBuildResponse : Type 0 where
  pub id : String
  pub project_id : String
  pub status : String
  pub created_at : ℕ

-- What handleCreateBuild writes: an accepted build, or the id of the build in the way.
pub data BuildAnswer : Type 0 where
  accepted : CreateBuildResponse → BuildAnswer
  conflict : String → BuildAnswer

abbrev pub new_build : String → String → String → ℕ → Build
new_build id pid uid now = record {
  id = id;
  project_id = pid;
  owner_uid = uid;
  status = status_pending;
  created_at = now;
  started_at = none;
  finished_at = none;
  artifact_format = [];
  artifact_path = [];
  log_path = [];
  error_message = [];
}

abbrev pub accepted_reply : Build → Reply BuildAnswer
accepted_reply b = replied 202 (
    accepted (record {
      id = b.id;
      project_id = b.project_id;
      status = status_pending;
      created_at = b.created_at;
    }))

abbrev pub id_or_empty : Option String → String
id_or_empty none = ""
id_or_empty (some id) = id

-- The branch of handleCreateBuild with a builder, StartBuild included.
unfoldable pub start_build :
    Answers → Manager → Build → Text → BuildState → BuildState × Reply BuildAnswer
start_build a m b source s =
    let (m1, existing) = claim b.project_id b.id m in
    elim existing [
      | some _ ↦ (s, replied 409 (conflict (id_or_empty (active_build_id b.project_id m))))
      | none ↦
          let (db1, created) = create_build a.create_build b s.db in
          elim created [
            | false ↦ (
              record s { db = db1; builder = some (clear_active b.project_id b.id m1) },
              refused 500 "internal",
            )
            | true ↦ (
              record { db = db1; builder = some m1; jobs = (b, source) ∷ s.jobs },
              accepted_reply b,
            )
          ]
    ]

-- The first build of a list that is pending or running.
unfoldable pub first_active : List Build → Option Build
first_active [] = none
first_active (b ∷ bs) =
    let rest = first_active bs in
    if str_eq b.status status_pending || str_eq b.status status_running then some b else rest

unfoldable pub active_in_store : Answers → String → Db → Option Build
active_in_store a pid db = elim (list_builds_by_project a.list_builds pid 100 db) [
  | err _ ↦ none
  | ok builds ↦ first_active builds
]

-- The branch without one.
unfoldable pub record_build : Answers → Build → BuildState → BuildState × Reply BuildAnswer
record_build a b s = elim (active_in_store a b.project_id s.db) [
  | some other ↦ (s, replied 409 (conflict other.id))
  | none ↦
      let (db1, created) = create_build a.create_build b s.db in
      if created
      then (record s { db = db1 }, accepted_reply b)
      else (record s { db = db1 }, refused 500 "internal")
]

-- handleCreateBuild, with the new id and the time.
unfoldable pub handle_create_build :
    Answers → Bool → Option User → String → String → ℕ → BuildState → BuildState × Reply BuildAnswer
handle_create_build a has_store user id build_id now s =
    checked (open_project a has_store user id s.db) s (λ (u, _).
      elim (get_project_source a.get_source id s.db) [
        | err _ ↦ (s, refused 500 "internal")
        | ok source ↦
            let b = new_build build_id id u.uid now in
            elim s.builder [ some m ↦ start_build a m b source s | none ↦ record_build a b s ]
      ])

pub record BuildResponse : Type 0 where
  pub id : String
  pub project_id : String
  pub status : String
  pub created_at : ℕ
  pub started_at : Option ℕ
  pub finished_at : Option ℕ
  pub duration_ms : ℕ
  pub artifact_format : Text
  pub artifact_url : Text
  pub log_url : Text
  pub error_message : Text
  pub has_test : Bool

-- FinishedAt.Sub(*StartedAt).Milliseconds() of a build that does not finish before it starts.
unfoldable pub duration_of : Option ℕ → Option ℕ → ℕ
duration_of (some started) (some finished) = (finished - started) / 1000000
duration_of (some started) none = 0
duration_of none finished = 0

-- buildToResponse
unfoldable pub build_to_response : Build → BuildResponse
build_to_response b = record {
  id = b.id;
  project_id = b.project_id;
  status = b.status;
  created_at = b.created_at;
  started_at = b.started_at;
  finished_at = b.finished_at;
  duration_ms = duration_of b.started_at b.finished_at;
  artifact_format = b.artifact_format;
  artifact_url = [];
  log_url = [];
  error_message = b.error_message;
  has_test = false;
}

abbrev pub build_url : String → Text → Text
build_url id what = text "/api/builds/" ++ (text id ++ what)

unfoldable pub has_test_command : Text → Bool
has_test_command source = contains (to_lower source) (text "test me with " ++ (b'"' ∷ []))

unfoldable pub test_found : Answers → String → Db → Bool
test_found a pid db = elim (get_project_source a.get_source pid db) [
  | err _ ↦ false
  | ok source ↦ has_test_command source
]

-- handleGetBuild
unfoldable pub project_build : Answers → String → String → String → Db → Check Build
project_build a uid pid bid db = elim (get_build a.get_build bid db) [
  | err _ ↦ stop 500 "internal"
  | ok found ↦ elim found [
    | none ↦ stop 404 "not_found"
    | some b ↦
        if not (str_eq b.project_id pid)
        then stop 404 "not_found"
        else if str_eq b.owner_uid uid
        then pass b
        else stop 403 "forbidden"
  ]
]

unfoldable pub handle_get_build :
    Answers → Bool → Option User → String → String → Db → Reply BuildResponse
handle_get_build a has_store user pid bid db =
    reply_to
      (and_then (signed_in user) (λ u.
        and_then (require (is_id b'p' pid) 400 "invalid_project_id") (λ _.
          and_then (require (is_id b'b' bid) 400 "invalid_build_id") (λ _.
            and_then (require has_store 404 "not_found") (λ _. project_build a u.uid pid bid db)))))
      (λ b. replied 200 (record (build_to_response b) {
        artifact_url = if text_eq b.artifact_path [] then [] else build_url bid (text "/artifact");
        log_url = if text_eq b.log_path [] then [] else build_url bid (text "/log");
        has_test = not (str_eq b.project_id "") && test_found a b.project_id db;
      }))

-- The start of a handler of a build: user, id, store, build, owner.
unfoldable pub own_build : Answers → String → String → Db → Check Build
own_build a uid bid db = elim (get_build a.get_build bid db) [
  | err _ ↦ stop 500 "internal"
  | ok found ↦ elim found [
    | none ↦ stop 404 "not_found"
    | some b ↦ if str_eq b.owner_uid uid then pass b else stop 403 "forbidden"
  ]
]

unfoldable pub open_build : Answers → Bool → Option User → String → Db → Check Build
open_build a has_store user bid db = and_then (signed_in user) (λ u.
    and_then (require (is_id b'b' bid) 400 "invalid_build_id")
      (λ _. and_then (require has_store 404 "not_found") (λ _. own_build a u.uid bid db)))

-- A blob as the body of the reply. An error of the download is only logged; what the body holds then
-- is left out.
unfoldable pub blob_reply : BlobWorld → Bool → Text → Files → Reply (List ℕ)
blob_reply w reads path files = elim (download_blob w.root reads path files) [
  | none ↦ replied 200 []
  | some bytes ↦ replied 200 bytes
]

-- handleGetBuildArtifact
unfoldable pub handle_get_build_artifact :
    Answers → BlobWorld → Bool → Bool → Option User → String → Storage → Reply (List ℕ)
handle_get_build_artifact a w reads has_store user bid s =
    reply_to (open_build a has_store user bid s.db) (λ b.
      if text_eq b.artifact_path []
      then refused 404 "not_found"
      else blob_reply w reads b.artifact_path s.files)

-- handleGetBuildLog
unfoldable pub handle_get_build_log :
    Answers → BlobWorld → Bool → Bool → Option User → String → Storage → Reply (List ℕ)
handle_get_build_log a w reads has_store user bid s =
    reply_to (open_build a has_store user bid s.db) (λ b.
      if text_eq b.log_path []
      then refused 404 "not_found"
      else blob_reply w reads b.log_path s.files)
