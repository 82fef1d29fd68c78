-- ===== src/Server/Http/Owned.antt =====
-- Handlers whose checks pass, of a database that answers every call (service/internal/server).
use aifstudio.Prelude.{String, ◌≡◌, refl, true, some, str_eq}
use aifstudio.Auth.Tables.{User}
use aifstudio.Store.Table.{find_row}
use aifstudio.Store.Rows.{Project, Db, scan_project}
use aifstudio.Store.Projects.{project_key, get_project}
use aifstudio.Store.Projects
use aifstudio.Server.Http.{pass, and_then, signed_in, is_id, Answers, own_project, open_project}

-- Every call is answered.
abbrev pub all_answer : Answers
all_answer = record {
  get_project = true;
  create_project = true;
  update_meta = true;
  publish = true;
  delete_project = true;
  list_projects = true;
  put_source = true;
  get_source = true;
  source_size = true;
  delete_source = true;
  get_build = true;
  create_build = true;
  list_builds = true;
  delete_builds = true;
  get_run = true;
  create_run = true;
  update_run = true;
  delete_run = true;
  list_runs = true;
  delete_runs = true;
  list_turns = true;
  create_turn = true;
  update_ai = true;
  turn_source = true;
  delete_turns = true;
}

pub own_project-pass :
    (uid id : String) (db : Db) (p : Project)
    → find_row project_key id db.projects ≡ some p
    → str_eq p.owner_uid uid ≡ true
    → own_project all_answer uid id db ≡ pass (scan_project p)
unfolding own_project get_project Projects.scanned scan_project
own_project-pass uid id db p e y = rw (own_project, e, y) refl

pub open_project-pass :
    (u : User) (id : String) (db : Db) (p : Project)
    → is_id b'p' id ≡ true
    → find_row project_key id db.projects ≡ some p
    → str_eq p.owner_uid u.uid ≡ true
    → open_project all_answer true (some u) id db ≡ pass (u, scan_project p)
unfolding open_project signed_in and_then
open_project-pass u id db p i e y = rw (open_project, i, own_project-pass u.uid id db p e y) refl
