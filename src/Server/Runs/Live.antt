-- ===== src/Server/Runs/Live.antt =====
-- The handlers of a live run (service/internal/server/handlers_runs.go). What a call of the session
-- returns is an argument; what it does to the session and its run is in Runner/Session.
use aifstudio.Prelude.{
  ℕ, String, Bool, not, ◌&&◌, ◌||◌, [], Option, none, some, is_some, str_eq, if◌then◌else◌,
}
use aifstudio.Text.{Text, text_eq, trim_space}
use aifstudio.Auth.Tables.{User}
use aifstudio.Store.Rows.{Run, Db}
use aifstudio.Runner.Manager.{Session, Sessions, get_session, create_session}
use aifstudio.Runner.Session.{status_running, status_suspended, status_finished}
use aifstudio.Server.Http.{
  Reply, refused, replied, Check, stop, pass, checked, reply_to, and_then, signed_in, require,
  is_id, Answers,
}
use aifstudio.Server.Projects.{decoded}
use aifstudio.Server.Runs.{RunState, own_run}

pub record SessionResponse : Type 0 where
  pub output : Text
  pub turn_count : ℕ
  pub resumed : Bool

-- What IsAlive and LastOutput of the session objects give.
pub record Live : Type 0 where
  pub is_alive : ℕ → Bool
  pub last_output : ℕ → Text

-- The start of handleRunStart and handleRunCommand: `has_service` says that there are a store and a
-- runner.
unfoldable pub open_live : Answers → Bool → Option User → String → Db → Check Run
open_live a has_service user id db = and_then (signed_in user) (λ u.
    and_then (require (is_id b'r' id) 400 "invalid_id")
      (λ _. and_then (require has_service 500 "internal") (λ _. own_run a u.uid id db)))

abbrev pub status_pending : String
status_pending = "pending"

abbrev pub status_failed : String
status_failed = "failed"

unfoldable pub may_start : Run → Bool
may_start r =
    str_eq r.status status_pending
    || str_eq r.status status_running
    || str_eq r.status status_suspended

-- What Session.Start returns.
pub data Started : Type 0 where
  upstream_error : Started
  start_error : Started
  started : Text → Started

-- A session of the manager that is alive.
unfoldable pub alive_session : Live → String → Option Sessions → Option Session
alive_session l id none = none
alive_session l id (some m) = elim (get_session id m) [
  | none ↦ none
  | some session ↦ if l.is_alive session.object then some session else none
]

-- CreateSession; the object of the new session is a new one.
unfoldable pub with_session : Session → RunState → RunState
with_session session s = elim s.sessions [
  | none ↦ s
  | some m ↦ record s { sessions = some (create_session session m) }
]

unfoldable pub start_reply : Started → Run → Reply SessionResponse
start_reply upstream_error r = refused 502 "upstream_unavailable"
start_reply start_error r = refused 500 "internal"
start_reply (started output) r = replied 200 (record {
  output = output;
  turn_count = r.turn_count;
  resumed = str_eq r.status status_suspended;
})

-- handleRunStart
unfoldable pub handle_run_start :
    Answers
    → Live
    → Started
    → ℕ
    → Bool
    → Option User
    → String
    → RunState
    → RunState × Reply SessionResponse
handle_run_start a l outcome object has_store user id s =
    checked (open_live a (has_store && is_some s.sessions) user id s.storage.db) s (λ r.
      if not (may_start r)
      then (s, refused 410 "run_ended")
      else elim (alive_session l id s.sessions) [
        | some session ↦ (s, start_reply (started (l.last_output session.object)) r)
        | none ↦ (with_session (record { id = r.id; object = object }) s, start_reply outcome r)
      ])

unfoldable pub takes_commands : Run → Bool
takes_commands r = str_eq r.status status_running || str_eq r.status status_suspended

-- What Session.Command returns.
pub data Answered : Type 0 where
  busy command_error : Answered
  answered : Text → Answered

pub record CommandResponse : Type 0 where
  pub output : Text
  pub turn_count : ℕ

unfoldable pub nonblank : Text → Check Text
nonblank input =
    if text_eq (trim_space input) [] then stop 400 "empty_input" else pass (trim_space input)

unfoldable pub command_reply : Answered → Run → Reply CommandResponse
command_reply busy r = refused 423 "busy"
command_reply command_error r = refused 500 "internal"
command_reply (answered output) r =
    replied 200 (record { output = output; turn_count = r.turn_count })

-- handleRunCommand: the command that the session gets, if it gets one, and the reply. `run_command` is
-- Session.Command.
unfoldable pub open_command :
    Answers
    → Live
    → Bool
    → Option User
    → String
    → Option Text
    → RunState
    → Check (Run × Session × Text)
open_command a l has_store user id body s =
    and_then (open_live a (has_store && is_some s.sessions) user id s.storage.db) (λ r.
      and_then (require (takes_commands r) 410 "run_ended") (λ _. and_then (decoded body) (λ sent.
        and_then (nonblank sent) (λ input. elim (alive_session l id s.sessions) [
          | none ↦ stop 409 "not_started"
          | some session ↦ pass (r, session, input)
        ]))))

unfoldable pub handle_run_command :
    Answers
    → Live
    → (Session → Text → Answered)
    → Bool
    → Option User
    → String
    → Option Text
    → RunState
    → Reply CommandResponse
handle_run_command a l run_command has_store user id body s =
    reply_to (open_command a l has_store user id body s)
      (λ (r, session, input). command_reply (run_command session input) r)

-- What Session.Suspend returns.
pub data Suspended : Type 0 where
  suspended suspend_busy suspend_error : Suspended

unfoldable pub suspend_reply : Suspended → Reply Unit
suspend_reply suspend_error = refused 500 "internal"
suspend_reply _ = replied 204 tt

unfoldable pub is_over : Run → Bool
is_over r =
    str_eq r.status status_suspended
    || str_eq r.status status_finished
    || str_eq r.status status_failed

-- handleRunSuspend
unfoldable pub open_suspend : Answers → Option User → String → Db → Check Run
open_suspend a user id db =
    and_then (signed_in user)
      (λ u. and_then (require (is_id b'r' id) 400 "invalid_id") (λ _. own_run a u.uid id db))

unfoldable pub handle_run_suspend :
    Answers → Live → (Session → Suspended) → Option User → String → RunState → Reply Unit
handle_run_suspend a l run_suspend user id s = reply_to (open_suspend a user id s.storage.db) (λ r.
    if is_over r then replied 204 tt else elim (alive_session l id s.sessions) [
      | none ↦ replied 204 tt
      | some session ↦ suspend_reply (run_suspend session)
    ])
