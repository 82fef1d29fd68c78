-- ===== src/Store/Samples.antt =====
-- A small database: a user with a project, its source, a build of it and a run
-- (service/internal/store/store.go).
use aifstudio.Prelude.{String, false, [], ◌∷◌, none, some}
use aifstudio.Text.{text}
use aifstudio.Auth.Tables.{User}
use aifstudio.Store.Rows.{Run, Project, Build, Db}

abbrev pub ann : User
ann = record { uid = "u-1"; email = text "ann@example.org"; name = text "Ann"; created_at = 1 }

abbrev pub bob : User
bob = record { uid = "u-2"; email = text "bob@example.org"; name = text "Bob"; created_at = 1 }

abbrev pub pid : String
pid = "p-01HZX5K3QJ8M2N4P6R7S9T0V1W"

abbrev pub run_id : String
run_id = "r-01HZX5K3QJ8M2N4P6R7S9T0V1W"

abbrev pub bid : String
bid = "b-01HZX5K3QJ8M2N4P6R7S9T0V1W"

abbrev pub new_id : String
new_id = "b-01HZX5K3QJ8M2N4P6R7S9T0V2X"

abbrev pub cave : Project
cave = record {
  id = pid;
  owner_uid = "u-1";
  name = text "Cave";
  description = [];
  created_at = 3;
  updated_at = 4;
  latest_build_id = bid;
  published = false;
  published_at = none;
}

abbrev pub cave_build : Build
cave_build = record {
  id = bid;
  project_id = pid;
  owner_uid = "u-1";
  status = "succeeded";
  created_at = 5;
  started_at = some 5;
  finished_at = some 6;
  artifact_format = text "zblorb";
  artifact_path = text "builds/b/artifact.zblorb";
  log_path = text "builds/b/build.log";
  error_message = [];
}

abbrev pub cave_run : Run
cave_run = record {
  id = run_id;
  source_type = "build";
  ifdb_id = "";
  title = text "Cave";
  format = text "zblorb";
  artifact_url = [];
  build_id = bid;
  user_id = "u-1";
  status = "suspended";
  created_at = 7;
  started_at = some 8;
  finished_at = none;
  last_active_at = some 9;
  exit_code = none;
  transcript_path = [];
  error_code = "";
  error_message = [];
  interpreter = "dfrotz";
  story_path = [];
  save_path = text "saves/r/current.qzl";
  turn_count = 12;
  last_save_at = some 9;
  reconnect_count = 0;
  candidate_urls = [];
  project_id = pid;
}

abbrev pub small : Db
small = record {
  accounts = record {
    users =
        record {
          id = "u-1";
          email = text "ann@example.org";
          password_hash = "h";
          display_name = text "Ann";
          created_at = 1;
        }
        ∷ record {
          id = "u-2";
          email = text "bob@example.org";
          password_hash = "h";
          display_name = text "Bob";
          created_at = 1;
        }
        ∷ [];
    sessions = [];
  };
  runs = cave_run ∷ [];
  projects = cave ∷ [];
  sources = record { project_id = pid; source = text "The Cave is a room." } ∷ [];
  turns = [];
  builds = cave_build ∷ [];
  games = [];
}
