-- ===== src/Store/Integrity.antt =====
-- The constraints of the schema of service/internal/store/sqlite.go, and the calls that write to the
-- database.
pub mod Steps
pub mod Replaced
pub mod Writes
pub mod Reachable
use aifstudio.Prelude.{
  ℕ, ◌≡◌, refl, String, Bool, true, false, List, [], ◌∷◌, Option, none, some, arith, All, is_some,
  str_eq,
}
use aifstudio.Text.{Text}
use aifstudio.Auth.Tables.{Tables, UserRow, find_id}
use aifstudio.Auth.Tables.Unique
use aifstudio.Store.Table.{find_row}
use aifstudio.Store.Table.Keys.{Once}
use aifstudio.Store.Rows.{Run, Project, Source, AiTurn, Build, CachedGame, Db}
use aifstudio.Store.Runs.{
  run_key, create_run, update_run, delete_run_row, delete_abandoned_pending_runs,
  delete_runs_for_project,
}
use aifstudio.Store.Projects.{
  project_key, source_key, create_project, update_project_meta, update_project_latest_build,
  set_project_published, put_project_source, delete_project_source, delete_project,
}
use aifstudio.Store.Records.{
  turn_key, build_key, game_key, create_ai_turn, update_project_ai, delete_ai_conversation,
  create_build, update_build, delete_builds_for_project, put_cached_game,
}

-- The user has a row, and the project has a row.
abbrev pub UserIn : List UserRow → String → Type 0
UserIn us uid = is_some (find_id uid us) ≡ true

abbrev pub ProjectIn : List Project → String → Type 0
ProjectIn ps pid = is_some (find_row project_key pid ps) ≡ true

-- The primary keys and the foreign keys.
pub record IsDb (db : Db) : Type 0 where
  pub runs_once : Once run_key db.runs
  pub runs_owned : All (λ r. UserIn db.accounts.users r.user_id) db.runs
  pub projects_once : Once project_key db.projects
  pub projects_owned : All (λ p. UserIn db.accounts.users p.owner_uid) db.projects
  pub sources_once : Once source_key db.sources
  pub sources_of : All (λ s. ProjectIn db.projects s.project_id) db.sources
  pub turns_once : Once turn_key db.turns
  pub turns_of : All (λ t. ProjectIn db.projects t.project_id) db.turns
  pub builds_once : Once build_key db.builds
  pub builds_of : All (λ b. ProjectIn db.projects b.project_id) db.builds
  pub games_once : Once game_key db.games

abbrev pub empty : Db
empty = record {
  accounts = Unique.empty;
  runs = [];
  projects = [];
  sources = [];
  turns = [];
  builds = [];
  games = [];
}

-- A call that writes, with whatever the database answers.
pub data Change (lower : Text → Text) : Db → Db → Type 0 where
  account :
      {t : Tables} (db : Db)
      → Unique.Change lower db.accounts t
      → Change lower db (record db { accounts = t })
  new_run : (a : Bool) (r : Run) (db : Db) → Change lower db (create_run a r db).0
  set_run : (a : Bool) (r : Run) (db : Db) → Change lower db (update_run a r db).0
  end_run : (a : Bool) (id : String) (db : Db) → Change lower db (delete_run_row a id db).0
  end_abandoned :
      (a : Bool) (t : ℕ) (db : Db) → Change lower db (delete_abandoned_pending_runs a t db).0
  end_runs :
      (a : Bool) (pid : String) (db : Db) → Change lower db (delete_runs_for_project a pid db).0
  new_project : (a : Bool) (p : Project) (db : Db) → Change lower db (create_project a p db).0
  set_meta :
      (a : Bool) (id : String) (n d : Text) (t : ℕ) (db : Db)
      → Change lower db (update_project_meta a id n d t db).0
  set_build :
      (a : Bool) (id bid : String) (db : Db)
      → Change lower db (update_project_latest_build a id bid db).0
  publish :
      (a : Bool) (id : String) (on : Bool) (t : ℕ) (db : Db)
      → Change lower db (set_project_published a id on t db).0
  put_source :
      (a : Bool) (pid : String) (s : Text) (t : ℕ) (db : Db)
      → Change lower db (put_project_source a pid s t db).0
  end_source :
      (a : Bool) (pid : String) (db : Db) → Change lower db (delete_project_source a pid db).0
  end_project : (a : Bool) (id : String) (db : Db) → Change lower db (delete_project a id db).0
  new_turn : (a : Bool) (t : AiTurn) (db : Db) → Change lower db (create_ai_turn a t db).0
  set_ai :
      (a : Bool) (p : Project) (t : Option AiTurn) (db : Db)
      → Change lower db (update_project_ai a p t db).0
  end_turns :
      (a : Bool) (pid : String) (db : Db) → Change lower db (delete_ai_conversation a pid db).0
  new_build : (a : Bool) (b : Build) (db : Db) → Change lower db (create_build a b db).0
  update : (a : Bool) (b : Build) (db : Db) → Change lower db (update_build a b db).0
  end_builds :
      (a : Bool) (pid : String) (db : Db) → Change lower db (delete_builds_for_project a pid db).0
  put_game : (a : Bool) (g : CachedGame) (db : Db) → Change lower db (put_cached_game a g db).0

pub data Reach (lower : Text → Text) : Db → Type 0 where
  fresh : Reach lower empty
  next : {db db' : Db} → Reach lower db → Change lower db db' → Reach lower db'
