-- ===== src/Store/Integrity/Reachable.antt =====
-- What holds of every database that calls of the store (service/internal/store/sqlite.go) reach.
use aifstudio.Prelude.{refl, true, false, All-map}
use aifstudio.Text.{Text}
use aifstudio.Auth.Tables.{Tables}
use aifstudio.Auth.Tables.Unique
use aifstudio.Store.Table.Keys.{Once-delete_where, All-delete_where}
use aifstudio.Store.Rows.{Db}
use aifstudio.Store.Runs.{
  run_key, delete_run_row, delete_abandoned_pending_runs, delete_runs_for_project,
}
use aifstudio.Store.Projects.{
  source_key, update_project_meta, update_project_latest_build, set_project_published,
  delete_project_source,
}
use aifstudio.Store.Records.{turn_key, build_key, delete_ai_conversation, delete_builds_for_project}
use aifstudio.Store.Integrity.{
  IsDb, Change, account, new_run, set_run, end_run, end_abandoned, end_runs, new_project, set_meta,
  set_build, publish, put_source, end_source, end_project, new_turn, set_ai, end_turns, new_build,
  update, end_builds, put_game, Reach, fresh, next,
}
use aifstudio.Store.Integrity.Steps.{set_project-IsDb, delete_project-IsDb, create_project-IsDb}
use aifstudio.Store.Integrity.Replaced.{with_runs, with_sources, with_turns, with_builds}
use aifstudio.Store.Integrity.Writes.{
  create_run-IsDb, update_run-IsDb, put_project_source-IsDb, create_ai_turn-IsDb,
  update_project_ai-IsDb, create_build-IsDb, update_build-IsDb, put_cached_game-IsDb,
}

account-IsDb :
    (lower : Text → Text) (db : Db) {t : Tables}
    → Unique.Change lower db.accounts t
    → IsDb db
    → IsDb (record db { accounts = t })
account-IsDb lower db c i =
    let kept = Unique.find_id-Change lower c in
    record {
      runs_once = i.runs_once;
      runs_owned = All-map _ _ (λ r q. kept r.user_id q) db.runs i.runs_owned;
      projects_once = i.projects_once;
      projects_owned = All-map _ _ (λ p q. kept p.owner_uid q) db.projects i.projects_owned;
      sources_once = i.sources_once;
      sources_of = i.sources_of;
      turns_once = i.turns_once;
      turns_of = i.turns_of;
      builds_once = i.builds_once;
      builds_of = i.builds_of;
      games_once = i.games_once;
    }

module _ (lower : Text → Text) where
  Change-IsDb : {db db' : Db} → Change lower db db' → IsDb db → IsDb db'
  unfolding delete_run_row delete_abandoned_pending_runs delete_runs_for_project update_project_meta
      update_project_latest_build set_project_published delete_project_source delete_ai_conversation
      delete_builds_for_project
  Change-IsDb (account db c) i = account-IsDb lower db c i
  Change-IsDb (new_run a r db) i = create_run-IsDb a r db i
  Change-IsDb (set_run a r db) i = update_run-IsDb a r db i
  Change-IsDb (end_run false id db) i = i
  Change-IsDb (end_run true id db) i =
      with_runs _ i (Once-delete_where run_key _ db.runs i.runs_once)
        (All-delete_where _ _ db.runs i.runs_owned)
  Change-IsDb (end_abandoned false t db) i = i
  Change-IsDb (end_abandoned true t db) i =
      with_runs _ i (Once-delete_where run_key _ db.runs i.runs_once)
        (All-delete_where _ _ db.runs i.runs_owned)
  Change-IsDb (end_runs false pid db) i = i
  Change-IsDb (end_runs true pid db) i =
      with_runs _ i (Once-delete_where run_key _ db.runs i.runs_once)
        (All-delete_where _ _ db.runs i.runs_owned)
  Change-IsDb (new_project a p db) i = create_project-IsDb a p db i
  Change-IsDb (set_meta false id n d t db) i = i
  Change-IsDb (set_meta true id n d t db) i = set_project-IsDb id _ db (λ p. refl) (λ p. refl) i
  Change-IsDb (set_build false id bid db) i = i
  Change-IsDb (set_build true id bid db) i = set_project-IsDb id _ db (λ p. refl) (λ p. refl) i
  Change-IsDb (publish false id on t db) i = i
  Change-IsDb (publish true id true t db) i = set_project-IsDb id _ db (λ p. refl) (λ p. refl) i
  Change-IsDb (publish true id false t db) i = set_project-IsDb id _ db (λ p. refl) (λ p. refl) i
  Change-IsDb (put_source a pid s t db) i = put_project_source-IsDb a pid s t db i
  Change-IsDb (end_source false pid db) i = i
  Change-IsDb (end_source true pid db) i =
      with_sources _ i (Once-delete_where source_key _ db.sources i.sources_once)
        (All-delete_where _ _ db.sources i.sources_of)
  Change-IsDb (end_project a id db) i = delete_project-IsDb a id db i
  Change-IsDb (new_turn a t db) i = create_ai_turn-IsDb a t db i
  Change-IsDb (set_ai a p t db) i = update_project_ai-IsDb a p t db i
  Change-IsDb (end_turns false pid db) i = i
  Change-IsDb (end_turns true pid db) i =
      with_turns _ i (Once-delete_where turn_key _ db.turns i.turns_once)
        (All-delete_where _ _ db.turns i.turns_of)
  Change-IsDb (new_build a b db) i = create_build-IsDb a b db i
  Change-IsDb (update a b db) i = update_build-IsDb a b db i
  Change-IsDb (end_builds false pid db) i = i
  Change-IsDb (end_builds true pid db) i =
      with_builds _ i (Once-delete_where build_key _ db.builds i.builds_once)
        (All-delete_where _ _ db.builds i.builds_of)
  Change-IsDb (put_game a g db) i = put_cached_game-IsDb a g db i

  -- Whatever calls of the store come one after another, and whichever of them the database refuses: no
  -- two rows of a table share their key; the user of each run and the owner of each project exist; and
  -- the project of each source, turn and build exists.
  pub reachable-IsDb : {db : Db} → Reach lower db → IsDb db
  reachable-IsDb fresh = record {
    runs_once = tt;
    runs_owned = tt;
    projects_once = tt;
    projects_owned = tt;
    sources_once = tt;
    sources_of = tt;
    turns_once = tt;
    turns_of = tt;
    builds_once = tt;
    builds_of = tt;
    games_once = tt;
  }
  reachable-IsDb (next r c) = Change-IsDb c (reachable-IsDb r)
