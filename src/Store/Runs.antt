-- ===== src/Store/Runs.antt =====
-- The runs of SQLiteStore (service/internal/store/sqlite.go). `answers` says that the database answers
-- the statement; a write gives whether it succeeded.
use aifstudio.Prelude.{
  ℕ, ◌-◌, String, Bool, true, false, not, ◌&&◌, ◌||◌, List, ◌∷◌, Option, none, some, is_some, ltb,
  str_eq, map, length, if◌then◌else◌,
}
use aifstudio.Auth.Tables.{Result, ok, err, store_error, fmt_time}
use aifstudio.Store.Table.{delete_where, update_where, top, desc, find_row, has_key}
use aifstudio.Store.Rows.{Run, Db, has_user, run_row, scan_run}

abbrev pub run_key : Run → String
run_key r = r.id

-- CreateRun
unfoldable pub create_run : Bool → Run → Db → Db × Bool
create_run answers r db =
    if not answers || is_some (find_row run_key r.id db.runs) || not (has_user r.user_id db)
    then (db, false)
    else (record db { runs = run_row r ∷ db.runs }, true)

unfoldable pub scanned : Option Run → Option Run
scanned none = none
scanned (some r) = some (scan_run r)

-- GetRun
unfoldable pub get_run : Bool → String → Db → Result (Option Run)
get_run answers id db =
    if answers then ok (scanned (find_row run_key id db.runs)) else err store_error

-- UpdateRun: a missing row is no error.
unfoldable pub update_run : Bool → Run → Db → Db × Bool
update_run answers r db =
    if not answers || (is_some (find_row run_key r.id db.runs) && not (has_user r.user_id db))
    then (db, false)
    else (record db { runs = update_where (has_key run_key r.id) (λ _. run_row r) db.runs }, true)

-- DeleteRun behind the deletion of its blobs.
unfoldable pub delete_run_row : Bool → String → Db → Db × Bool
delete_run_row answers id db =
    if answers
    then (record db { runs = delete_where (has_key run_key id) db.runs }, true)
    else (db, false)

abbrev pub is_abandoned : ℕ → Run → Bool
is_abandoned before r = str_eq r.status "pending" && ltb r.created_at before

-- DeleteAbandonedPendingRuns, with the number of rows.
unfoldable pub delete_abandoned_pending_runs : Bool → ℕ → Db → Db × Result ℕ
delete_abandoned_pending_runs answers before db =
    let left = delete_where (is_abandoned (fmt_time before)) db.runs in
    if answers
    then (record db { runs = left }, ok (length db.runs - length left))
    else (db, err store_error)

unfoldable pub clamp : ℕ → ℕ → ℕ → ℕ
clamp lo hi n = if ltb n lo then lo else if ltb hi n then hi else n

abbrev pub run_of_user : String → Run → Bool
run_of_user uid r = str_eq r.user_id uid

abbrev pub run_of_project : String → Run → Bool
run_of_project pid r = str_eq r.project_id pid

-- COALESCE(last_active_at, created_at)
abbrev pub active_at : Run → ℕ
active_at r = elim r.last_active_at [ none ↦ r.created_at | some t ↦ t ]

-- ListRunsByUser; collectRuns scans the rows.
unfoldable pub list_runs_by_user : Bool → String → ℕ → Db → Result (List Run)
list_runs_by_user answers uid limit db =
    if answers
    then ok (map scan_run (top (run_of_user uid) (desc active_at) (clamp 1 50 limit) db.runs))
    else err store_error

-- ListRunsByProject
unfoldable pub list_runs_by_project : Bool → String → ℕ → Db → Result (List Run)
list_runs_by_project answers pid limit db =
    if answers
    then ok (
        map scan_run
          (top (run_of_project pid) (desc (λ r. r.created_at)) (clamp 1 500 limit) db.runs))
    else err store_error

-- DeleteRunsForProject
unfoldable pub delete_runs_for_project : Bool → String → Db → Db × Result ℕ
delete_runs_for_project answers pid db =
    let left = delete_where (run_of_project pid) db.runs in
    if answers
    then (record db { runs = left }, ok (length db.runs - length left))
    else (db, err store_error)
