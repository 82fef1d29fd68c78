-- ===== src/Server/Community.antt =====
-- Published projects (service/internal/server/handlers_community.go).
pub mod Needs
pub mod Play
use aifstudio.Prelude.{
  ℕ, String, Bool, true, false, not, ◌&&◌, ◌||◌, List, [], ◌∷◌, ◌++◌, Option, none, some, ltb, ◌==◌,
  str_eq, map, if◌then◌else◌,
}
use aifstudio.Text.{Text, text}
use aifstudio.Auth.Tables.{User, Result, ok, err}
use aifstudio.Store.Rows.{Run, Project, Build, Db}
use aifstudio.Store.Runs.{create_run, clamp}
use aifstudio.Store.Projects.{
  get_project, get_project_source_size, set_project_published, list_published_projects,
}
use aifstudio.Store.Records.{get_build}
use aifstudio.Build.Job.{status_pending, status_succeeded}
use aifstudio.Server.Http.{
  Reply, refused, replied, Check, stop, pass, checked, reply_to, and_then, signed_in, require,
  is_id, Answers, own_project,
}
use aifstudio.Server.Projects.{decoded}

pub record PublishResponse : Type 0 where
  pub id : String
  pub published : Bool
  pub published_at : Option ℕ

-- The latest build of a project, if it has one that succeeded.
unfoldable pub succeeded_build : Answers → Project → Db → Option Build
succeeded_build a p db = elim (get_build a.get_build p.latest_build_id db) [
  | err _ ↦ none
  | ok found ↦ elim found [
    | none ↦ none
    | some b ↦ if str_eq b.status status_succeeded then some b else none
  ]
]

-- What a project needs to be published.
unfoldable pub has_source : Answers → String → Db → Check Unit
has_source a id db = elim (get_project_source_size a.source_size id db) [
  | err _ ↦ stop 500 "internal"
  | ok size ↦ elim size [
    | none ↦ stop 409 "empty_source"
    | some n ↦ if n == 0 then stop 409 "empty_source" else pass tt
  ]
]

unfoldable pub publishable : Answers → Project → String → Db → Check Unit
publishable a p id db =
    if str_eq p.latest_build_id ""
    then stop 422 "build_required"
    else elim (succeeded_build a p db) [
      | none ↦ stop 422 "build_required"
      | some _ ↦ has_source a id db
    ]

unfoldable pub may_publish : Bool → Answers → Project → String → Db → Check Unit
may_publish false a p id db = pass tt
may_publish true a p id db = publishable a p id db

-- The start of handleTogglePublish; the body is the field, `none` without one.
unfoldable pub open_publish :
    Answers → Option User → String → Option Bool → Db → Check (Bool × Project)
open_publish a user id body db = and_then (signed_in user) (λ u.
    and_then (require (is_id b'p' id) 400 "invalid_id") (λ _. and_then (decoded body) (λ on.
      and_then (own_project a u.uid id db)
        (λ p. and_then (may_publish on a p id db) (λ _. pass (on, p))))))

-- handleTogglePublish, with the time.
unfoldable pub handle_toggle_publish :
    Answers → Option User → String → Option Bool → ℕ → Db → Db × Reply PublishResponse
handle_toggle_publish a user id body now db =
    checked (open_publish a user id body db) db (λ (on, p).
      let (db1, done) = set_project_published a.publish id on now db in
      if done
      then (
        db1,
        replied 200 (record {
          id = id;
          published = on;
          published_at = if on then some now else p.published_at;
        }),
      )
      else (db1, refused 500 "internal"))

pub record CommunityGameEntry : Type 0 where
  pub id : String
  pub name : Text
  pub description : Text
  pub owner_uid : String
  pub published_at : Option ℕ
  pub latest_build_id : String

unfoldable pub to_game_entry : Project → CommunityGameEntry
to_game_entry p = record {
  id = p.id;
  name = p.name;
  description = p.description;
  owner_uid = p.owner_uid;
  published_at = p.published_at;
  latest_build_id = p.latest_build_id;
}

-- handleCommunityList; `limit` is the number of the query, `none` without one. A negative number is 0.
unfoldable pub community_limit : Option ℕ → ℕ
community_limit none = 50
community_limit (some n) = clamp 1 50 n

unfoldable pub handle_community_list :
    Answers → Option User → Option ℕ → Db → Reply (List CommunityGameEntry)
handle_community_list a user limit db = reply_to (signed_in user) (λ _.
    elim (list_published_projects a.list_projects (community_limit limit) db) [
      | err _ ↦ refused 500 "internal"
      | ok projects ↦ replied 200 (map to_game_entry projects)
    ])

pub record PlayResponse : Type 0 where
  pub id : String
  pub status : String
  pub start_url : Text
  pub created_at : ℕ

unfoldable pub published_project : Answers → String → Db → Check Project
published_project a id db = elim (get_project a.get_project id db) [
  | err _ ↦ stop 500 "internal"
  | ok found ↦ elim found [
    | none ↦ stop 404 "not_found"
    | some p ↦
        if not p.published
        then stop 403 "not_published"
        else if str_eq p.latest_build_id ""
        then stop 422 "no_build"
        else pass p
  ]
]

unfoldable pub ready_build : Answers → Project → Db → Check Build
ready_build a p db = elim (succeeded_build a p db) [
  | none ↦ stop 422 "build_not_ready"
  | some b ↦ pass b
]

unfoldable pub open_play : Answers → Option User → String → Db → Check (User × Project × Build)
open_play a user id db = and_then (signed_in user) (λ u.
    and_then (require (is_id b'p' id) 400 "invalid_id") (λ _.
      and_then (published_project a id db)
        (λ p. and_then (ready_build a p db) (λ b. pass (u, p, b)))))

abbrev pub community_run : String → String → Project → Build → ℕ → Run
community_run id uid p b now = record {
  id = id;
  source_type = "build";
  ifdb_id = "";
  title = p.name;
  format = b.artifact_format;
  artifact_url = [];
  build_id = p.latest_build_id;
  user_id = uid;
  status = "pending";
  created_at = now;
  started_at = none;
  finished_at = none;
  last_active_at = some now;
  exit_code = none;
  transcript_path = [];
  error_code = "";
  error_message = [];
  interpreter = "";
  story_path = [];
  save_path = [];
  turn_count = 0;
  last_save_at = none;
  reconnect_count = 0;
  candidate_urls = [];
  project_id = p.id;
}

-- handleCommunityPlay, with the new run's id and the time.
unfoldable pub handle_community_play :
    Answers → Option User → String → String → ℕ → Db → Db × Reply PlayResponse
handle_community_play a user id run_id now db = checked (open_play a user id db) db (λ (u, p, b).
    let (db1, created) = create_run a.create_run (community_run run_id u.uid p b now) db in
    if created
    then (
      db1,
      replied 201 (record {
        id = run_id;
        status = "pending";
        start_url = text "/api/runs/" ++ (text run_id ++ text "/start");
        created_at = now;
      }),
    )
    else (db1, refused 500 "internal"))
