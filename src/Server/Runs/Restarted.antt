-- ===== src/Server/Runs/Restarted.antt =====
-- Runs that are restarted or deleted (service/internal/server/handlers_runs.go).
use aifstudio.Prelude.{String, ◌≡◌, refl, none, str_eq_refl, Option-cases, inl, inr}
use aifstudio.Text.{Text}
use aifstudio.Dict.{lookup-delete}
use aifstudio.Store.Table.{update_where, has_key}
use aifstudio.Store.Rows.{Run, Db, run_row, scan_run}
use aifstudio.Store.Runs.{run_key}
use aifstudio.Store.Runs
use aifstudio.Runner.Manager.{Sessions, get_session, remove_session}
use aifstudio.Server.Runs.{RunState, stop_session, reset_run}
use aifstudio.Server.Runs.Live.{Live, alive_session}

-- A stopped session is no longer found, and stopping it touches neither the storage nor whether there is
-- a runner.
pub stop_session-storage : (id : String) (s : RunState) → (stop_session id s).storage ≡ s.storage
unfolding stop_session
stop_session-storage id s = elim (Option-cases s.sessions) [
  | inl n ↦ rw (stop_session, n) refl
  | inr (m, e) ↦ elim (Option-cases (get_session id m)) [
    | inl f ↦ rw (stop_session, e, f) refl
    | inr (session, f) ↦ rw (stop_session, e, f) refl
  ]
]

removed : (id : String) (m : Sessions) → get_session id (remove_session id m) ≡ none
unfolding get_session remove_session
removed id m = rw (lookup-delete id id m, str_eq_refl id) refl

pub stop_session-alive :
    (l : Live) (id : String) (s : RunState) → alive_session l id (stop_session id s).sessions ≡ none
unfolding stop_session alive_session
stop_session-alive l id s = elim (Option-cases s.sessions) [
  | inl n ↦ rw (stop_session, n, n, alive_session) refl
  | inr (m, e) ↦ elim (Option-cases (get_session id m)) [
    | inl f ↦ rw (stop_session, e, f, alive_session, e, f) refl
    | inr (session, f) ↦ rw (stop_session, e, f, alive_session, removed id m) refl
  ]
]

-- The run that is stored again.
abbrev pub again : Run → Run
again r = reset_run (scan_run r)

abbrev pub with_again : Run → Db → Db
with_again r db = record db {
  runs = update_where (has_key run_key r.id) (λ _. run_row (again r)) db.runs;
}
