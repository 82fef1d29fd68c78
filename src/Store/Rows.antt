-- ===== src/Store/Rows.antt =====
-- The rows of service/internal/store/store.go and the database that they live in. A row of a table is a
-- record of the program with whole seconds for its times: `run_row` and its like are what a statement
-- binds, `scan_run` and its like what a query reads back. The JSON of the candidate URLs is the list.
use aifstudio.Prelude.{ℕ, ℤ, String, Bool, List, Option, none, some, is_some}
use aifstudio.Text.{Text}
use aifstudio.Auth.Tables.{Tables, find_id, fmt_time, parse_time}

pub record Run : Type 0 where
  pub id : String
  pub source_type : String
  pub ifdb_id : String
  pub title : Text
  pub format : Text
  pub artifact_url : Text
  pub build_id : String
  pub user_id : String
  pub status : String
  pub created_at : ℕ
  pub started_at : Option ℕ
  pub finished_at : Option ℕ
  pub last_active_at : Option ℕ
  pub exit_code : Option ℤ
  pub transcript_path : Text
  pub error_code : String
  pub error_message : Text
  pub interpreter : String
  pub story_path : Text
  pub save_path : Text
  pub turn_count : ℕ
  pub last_save_at : Option ℕ
  pub reconnect_count : ℕ
  pub candidate_urls : List Text
  pub project_id : String

pub record Project : Type 0 where
  pub id : String
  pub owner_uid : String
  pub name : Text
  pub description : Text
  pub created_at : ℕ
  pub updated_at : ℕ
  pub latest_build_id : String
  pub published : Bool
  pub published_at : Option ℕ

pub record AiTurn : Type 0 where
  pub id : String
  pub project_id : String
  pub owner_uid : String
  pub kind : String
  pub user_message : Text
  pub assistant_reply : Text
  pub source_before : Text
  pub source_after : Text
  pub model_requested_at : ℕ
  pub model_finished_at : ℕ
  pub prompt_tokens : ℕ
  pub completion_tokens : ℕ
  pub model : String
  pub error : Text

pub record Build : Type 0 where
  pub id : String
  pub project_id : String
  pub owner_uid : String
  pub status : String
  pub created_at : ℕ
  pub started_at : Option ℕ
  pub finished_at : Option ℕ
  pub artifact_format : Text
  pub artifact_path : Text
  pub log_path : Text
  pub error_message : Text

pub record CachedGame : Type 0 where
  pub tuid : String
  pub payload : List ℕ
  pub fetched_at : ℕ
  pub expires_at : ℕ

-- A row of project_sources.
pub record Source : Type 0 where
  pub project_id : String
  pub source : Text

pub record Db : Type 0 where
  pub accounts : Tables
  pub runs : List Run
  pub projects : List Project
  pub sources : List Source
  pub turns : List AiTurn
  pub builds : List Build
  pub games : List CachedGame

-- REFERENCES users(id)
unfoldable pub has_user : String → Db → Bool
has_user uid db = is_some (find_id uid db.accounts.users)

-- nullTimeVal and parseNullTime
unfoldable pub null_time_val : Option ℕ → Option ℕ
null_time_val none = none
null_time_val (some t) = some (fmt_time t)

unfoldable pub parse_null_time : Option ℕ → Option ℕ
parse_null_time none = none
parse_null_time (some t) = some (parse_time t)

unfoldable pub run_row : Run → Run
run_row r = record r {
  created_at = fmt_time r.created_at;
  started_at = null_time_val r.started_at;
  finished_at = null_time_val r.finished_at;
  last_active_at = null_time_val r.last_active_at;
  last_save_at = null_time_val r.last_save_at;
}

-- scanRun
unfoldable pub scan_run : Run → Run
scan_run r = record r {
  created_at = parse_time r.created_at;
  started_at = parse_null_time r.started_at;
  finished_at = parse_null_time r.finished_at;
  last_active_at = parse_null_time r.last_active_at;
  last_save_at = parse_null_time r.last_save_at;
}

unfoldable pub project_row : Project → Project
project_row p = record p {
  created_at = fmt_time p.created_at;
  updated_at = fmt_time p.updated_at;
  published_at = null_time_val p.published_at;
}

-- scanProject
unfoldable pub scan_project : Project → Project
scan_project p = record p {
  created_at = parse_time p.created_at;
  updated_at = parse_time p.updated_at;
  published_at = parse_null_time p.published_at;
}

unfoldable pub build_row : Build → Build
build_row b = record b {
  created_at = fmt_time b.created_at;
  started_at = null_time_val b.started_at;
  finished_at = null_time_val b.finished_at;
}

-- scanBuild
unfoldable pub scan_build : Build → Build
scan_build b = record b {
  created_at = parse_time b.created_at;
  started_at = parse_null_time b.started_at;
  finished_at = parse_null_time b.finished_at;
}

unfoldable pub turn_row : AiTurn → AiTurn
turn_row t = record t {
  model_requested_at = fmt_time t.model_requested_at;
  model_finished_at = fmt_time t.model_finished_at;
}

unfoldable pub scan_turn : AiTurn → AiTurn
scan_turn t = record t {
  model_requested_at = parse_time t.model_requested_at;
  model_finished_at = parse_time t.model_finished_at;
}
