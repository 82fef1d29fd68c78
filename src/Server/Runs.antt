-- ===== src/Server/Runs.antt =====
-- The handlers of runs (service/internal/server/handlers_runs.go). `sessions` is the map of the session
-- manager, and `stopped` holds the sessions that a handler has stopped; what a stopped session does to
-- its run is in Runner/Session.
pub mod Create
pub mod Live
pub mod Restarted
pub mod Deleted
mod Tests
use aifstudio.Prelude.{
  ℕ, String, Bool, true, false, not, ◌&&◌, ◌||◌, List, [], ◌∷◌, ◌++◌, Option, none, some, str_eq,
  ltb, map, if◌then◌else◌,
}
use aifstudio.Text.{Text, text, text_eq}
use aifstudio.Auth.Tables.{User, Result, ok, err}
use aifstudio.Store.Rows.{Run, Db}
use aifstudio.Store.Runs.{create_run, get_run, update_run, delete_run_row, list_runs_by_user}
use aifstudio.Store.Blobs.{Files, delete_blob_prefix, download_blob}
use aifstudio.Runner.Manager.{Session, Sessions, get_session, remove_session}
use aifstudio.Runner.Session.{status_finished}
use aifstudio.Server.Http.{
  Reply, refused, replied, Check, stop, pass, checked, reply_to, and_then, signed_in, require,
  is_id, Answers,
}
use aifstudio.Server.Cascade.{BlobWorld, Storage, drop_one_run}

-- The server: its storage and the runner's sessions, `none` without a runner.
pub record RunState : Type 0 where
  pub storage : Storage
  pub sessions : Option Sessions
  pub stopped : List Session

pub record RunResponse : Type 0 where
  pub id : String
  pub source_type : String
  pub ifdb_id : String
  pub title : Text
  pub format : Text
  pub status : String
  pub created_at : ℕ
  pub started_at : Option ℕ
  pub last_active_at : Option ℕ
  pub turn_count : ℕ
  pub start_url : Text
  pub transcript_url : Text

abbrev pub run_url : String → Text → Text
run_url id what = text "/api/runs/" ++ (text id ++ what)

-- runToResponse
unfoldable pub run_to_response : Run → RunResponse
run_to_response r = record {
  id = r.id;
  source_type = r.source_type;
  ifdb_id = r.ifdb_id;
  title = r.title;
  format = r.format;
  status = r.status;
  created_at = r.created_at;
  started_at = r.started_at;
  last_active_at = r.last_active_at;
  turn_count = r.turn_count;
  start_url = run_url r.id (text "/start");
  transcript_url = [];
}

-- The row of a request.
unfoldable pub find_run : Answers → String → Db → Check Run
find_run a id db = elim (get_run a.get_run id db) [
  | err _ ↦ stop 500 "internal"
  | ok found ↦ elim found [ none ↦ stop 404 "not_found" | some r ↦ pass r ]
]

unfoldable pub own_run : Answers → String → String → Db → Check Run
own_run a uid id db =
    and_then (find_run a id db) (λ r. if str_eq r.user_id uid then pass r else stop 403 "forbidden")

-- The start of the handlers of one run: user, id, store, run, owner.
unfoldable pub open_run : Answers → Bool → Option User → String → Db → Check Run
open_run a has_store user id db = and_then (signed_in user) (λ u.
    and_then (require (is_id b'r' id) 400 "invalid_id")
      (λ _. and_then (require has_store 404 "not_found") (λ _. own_run a u.uid id db)))

-- handleGetRun: any caller, signed in or not.
unfoldable pub handle_get_run : Answers → Bool → String → Db → Reply RunResponse
handle_get_run a has_store id db =
    reply_to
      (and_then (require (is_id b'r' id) 400 "invalid_id")
        (λ _. and_then (require has_store 404 "not_found") (λ _. find_run a id db)))
      (λ r. replied 200 (
        if not (text_eq r.transcript_path []) && str_eq r.status status_finished
        then record (run_to_response r) { transcript_url = run_url id (text "/transcript") }
        else run_to_response r))

-- handleRunsByUser; `limit` is a number of the query, `none` without one, and `default_limit` stands in
-- the configuration.
unfoldable pub history_limit : ℕ → Option ℕ → ℕ
history_limit default_limit none = default_limit
history_limit default_limit (some n) = if ltb 0 n then n else default_limit

unfoldable pub handle_runs_by_user :
    Answers → Bool → ℕ → Option User → Option ℕ → Db → Reply (List RunResponse)
handle_runs_by_user a has_store default_limit user limit db = reply_to (signed_in user) (λ u.
    elim has_store [
      | false ↦ replied 200 []
      | true ↦ elim (list_runs_by_user a.list_runs u.uid (history_limit default_limit limit) db) [
        | err _ ↦ refused 500 "internal"
        | ok runs ↦ replied 200 (map run_to_response runs)
      ]
    ])

-- The kill of a live session, in handleDeleteRun and handleRestartRun.
unfoldable pub stop_session : String → RunState → RunState
stop_session id s = elim s.sessions [
  | none ↦ s
  | some m ↦ elim (get_session id m) [
    | none ↦ s
    | some session ↦ record s {
      sessions = some (remove_session id m);
      stopped = session ∷ s.stopped;
    }
  ]
]

-- DeleteRun of the store: the blobs of the run's directory, then the row.
unfoldable pub delete_run : Bool → BlobWorld → String → Storage → Storage × Bool
delete_run answers w id s =
    let (files, _, removed) =
      delete_blob_prefix w.root w.removes (text "sessions/" ++ (text id ++ text "/")) s.files in
    if not removed
    then (record s { files = files }, false)
    else let (db, done) = delete_run_row answers id s.db in
      (record { db = db; files = files }, done)

-- handleDeleteRun
unfoldable pub drop_run : Answers → BlobWorld → String → RunState → RunState × Reply Unit
drop_run a w id s =
    let s1 = stop_session id s in
    let dropped = record s1.storage { files = drop_one_run w id s1.storage.files } in
    let (storage, done) = delete_run a.delete_run w id dropped in
    (record s1 { storage = storage }, if done then replied 204 tt else refused 500 "internal")

unfoldable pub handle_delete_run :
    Answers → BlobWorld → Bool → Option User → String → RunState → RunState × Reply Unit
handle_delete_run a w has_store user id s =
    checked (open_run a has_store user id s.storage.db) s (λ _. drop_run a w id s)

-- The run of handleRestartRun.
unfoldable pub reset_run : Run → Run
reset_run r = record r {
  status = "pending";
  turn_count = 0;
  started_at = none;
  finished_at = none;
  last_active_at = none;
  last_save_at = none;
  exit_code = none;
  transcript_path = [];
  error_code = "";
  error_message = [];
  reconnect_count = 0;
  save_path = [];
}

-- handleRestartRun
unfoldable pub handle_restart_run :
    Answers → Bool → Option User → String → RunState → RunState × Reply RunResponse
handle_restart_run a has_store user id s =
    checked (open_run a has_store user id s.storage.db) s (λ r.
      let s1 = stop_session id s in
      let (db, done) = update_run a.update_run (reset_run r) s1.storage.db in
      (
        record s1 { storage = record s1.storage { db = db } },
        if done then replied 200 (run_to_response (reset_run r)) else refused 500 "internal",
      ))

-- handleGetRunTranscript; an error of the download is only logged, and the body is then left out.
unfoldable pub transcript_body : BlobWorld → Bool → Text → Files → List ℕ
transcript_body w reads path files = elim (download_blob w.root reads path files) [
  | none ↦ []
  | some bytes ↦ bytes
]

unfoldable pub handle_get_run_transcript :
    Answers → BlobWorld → Bool → Bool → Option User → String → Storage → Reply (List ℕ)
handle_get_run_transcript a w reads has_store user id s =
    reply_to (open_run a has_store user id s.db) (λ r.
      if text_eq r.transcript_path []
      then refused 404 "not_found"
      else replied 200 (transcript_body w reads r.transcript_path s.files))
