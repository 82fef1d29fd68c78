-- ===== src/Store/Integrity/Replaced.antt =====
-- The constraints of the schema (service/internal/store/sqlite.go) when the rows of one table are
-- replaced by others.
use aifstudio.Prelude.{List, All}
use aifstudio.Store.Table.Keys.{Once}
use aifstudio.Store.Rows.{Run, Source, AiTurn, Build, CachedGame, Db}
use aifstudio.Store.Runs.{run_key}
use aifstudio.Store.Projects.{source_key}
use aifstudio.Store.Records.{turn_key, build_key, game_key}
use aifstudio.Store.Integrity.{UserIn, ProjectIn, IsDb}

pub with_runs :
    {db : Db} (rs : List Run)
    → IsDb db
    → Once run_key rs
    → All (λ r. UserIn db.accounts.users r.user_id) rs
    → IsDb (record db { runs = rs })
with_runs rs i o h = record {
  runs_once = o;
  runs_owned = h;
  projects_once = i.projects_once;
  projects_owned = i.projects_owned;
  sources_once = i.sources_once;
  sources_of = i.sources_of;
  turns_once = i.turns_once;
  turns_of = i.turns_of;
  builds_once = i.builds_once;
  builds_of = i.builds_of;
  games_once = i.games_once;
}

pub with_sources :
    {db : Db} (rs : List Source)
    → IsDb db
    → Once source_key rs
    → All (λ r. ProjectIn db.projects r.project_id) rs
    → IsDb (record db { sources = rs })
with_sources rs i o h = record {
  runs_once = i.runs_once;
  runs_owned = i.runs_owned;
  projects_once = i.projects_once;
  projects_owned = i.projects_owned;
  sources_once = o;
  sources_of = h;
  turns_once = i.turns_once;
  turns_of = i.turns_of;
  builds_once = i.builds_once;
  builds_of = i.builds_of;
  games_once = i.games_once;
}

pub with_turns :
    {db : Db} (rs : List AiTurn)
    → IsDb db
    → Once turn_key rs
    → All (λ r. ProjectIn db.projects r.project_id) rs
    → IsDb (record db { turns = rs })
with_turns rs i o h = record {
  runs_once = i.runs_once;
  runs_owned = i.runs_owned;
  projects_once = i.projects_once;
  projects_owned = i.projects_owned;
  sources_once = i.sources_once;
  sources_of = i.sources_of;
  turns_once = o;
  turns_of = h;
  builds_once = i.builds_once;
  builds_of = i.builds_of;
  games_once = i.games_once;
}

pub with_builds :
    {db : Db} (rs : List Build)
    → IsDb db
    → Once build_key rs
    → All (λ r. ProjectIn db.projects r.project_id) rs
    → IsDb (record db { builds = rs })
with_builds rs i o h = record {
  runs_once = i.runs_once;
  runs_owned = i.runs_owned;
  projects_once = i.projects_once;
  projects_owned = i.projects_owned;
  sources_once = i.sources_once;
  sources_of = i.sources_of;
  turns_once = i.turns_once;
  turns_of = i.turns_of;
  builds_once = o;
  builds_of = h;
  games_once = i.games_once;
}

pub with_games :
    {db : Db} (rs : List CachedGame) → IsDb db → Once game_key rs → IsDb (record db { games = rs })
with_games rs i o = record {
  runs_once = i.runs_once;
  runs_owned = i.runs_owned;
  projects_once = i.projects_once;
  projects_owned = i.projects_owned;
  sources_once = i.sources_once;
  sources_of = i.sources_of;
  turns_once = i.turns_once;
  turns_of = i.turns_of;
  builds_once = i.builds_once;
  builds_of = i.builds_of;
  games_once = o;
}
