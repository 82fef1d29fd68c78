-- ===== src/Runner/Session.antt =====
-- Session of service/internal/runner/session.go and the save cycle of service/internal/runner/save.go.
-- What the interpreter, the file system, the clock and the store answer during one call is a record.
pub mod Save
pub mod Wait
mod Tests
use Prim.Native.String.{◌++◌ as concat}
use aifstudio.Prelude.{
  ℕ, zero, suc, ◌+◌, ◌*◌, ◌-◌, String, Bool, true, false, ◌&&◌, ◌||◌, not, Option, none, some,
  str_eq, if◌then◌else◌, List, ◌∷◌, [],
}

-- The fields of store.Run that sessions read or write (service/internal/store/store.go).
pub record Run : Type 0 where
  pub id : String
  pub status : String
  pub error_code : String
  pub save_path : String
  pub turn_count : ℕ
  pub last_save_at : Option ℕ
  pub last_active_at : Option ℕ
  pub finished_at : Option ℕ
  pub transcript_path : String

abbrev pub status_running : String
status_running = "running"

abbrev pub status_suspended : String
status_suspended = "suspended"

abbrev pub status_finished : String
status_finished = "finished"

abbrev pub unsavable_mark : String
unsavable_mark = "<unsavable>"

pub data Mode : Type 0 where
  normal saving restoring : Mode

-- `stored` is the run's row in the store; `uploads` are the blobs written for it, latest first.
-- `alive` is false once `done` is closed.
pub record Session : Type 0 where
  pub run : Run
  pub stored : Run
  pub uploads : List String
  pub started : Bool
  pub has_cmd : Bool
  pub has_work_dir : Bool
  pub has_stdin : Bool
  pub command_lock : Bool
  pub unsavable : Bool
  pub mode : Mode
  pub turn_count : ℕ
  pub alive : Bool

pub data SaveError : Type 0 where
  not_started interpreter_busy write_failed cancelled save_missing open_failed upload_failed :
      SaveError
  busy : SaveError

-- What a save meets: whether output quiesced in time, whether the save command was written, whether
-- the context ended during the save, the size of the save file (`none` if it is not there), whether
-- it opens and uploads, the time after the upload, and whether an update of the run writes
-- its row: one that fails, or that finds no row, leaves the store as it was.
pub record SaveWorld : Type 0 where
  pub quiet : Bool
  pub writes : Bool
  pub ctx_done : Bool
  pub save_file : Option ℕ
  pub opens : Bool
  pub uploads : Bool
  pub now : ℕ
  pub updates : Bool

-- s.st.UpdateRun(run): a failure is only logged, and a missing row is none.
update_run : Bool → Session → Session
update_run updates s = if updates then record s { stored = s.run } else s

pub save_blob : String → String
save_blob id = concat "sessions/" (concat id "/game.sav")

-- Lines 134-153: the save file is missing or empty.
no_save_file : SaveWorld → Session → Session × Option SaveError
no_save_file w s =
    if str_eq s.run.save_path ""
    then (
      let run = s.run in
          update_run w.updates
            (record s { unsavable = true; run = record run { save_path = unsavable_mark } }),
      none,
    )
    else (s, some save_missing)

-- Lines 155-182.
upload_save : SaveWorld → String → Session → Session × Option SaveError
upload_save w run_status s =
    let path = save_blob s.run.id in
    let turns = s.turn_count + 1 in
    let run = s.run in
    let saved = record s {
      uploads = path ∷ s.uploads;
      turn_count = turns;
      run = record run {
        save_path = path;
        last_save_at = some w.now;
        last_active_at = some w.now;
        turn_count = turns;
        status = run_status;
      };
    } in
    if not w.opens
    then (s, some open_failed)
    else if not w.uploads
    then (s, some upload_failed)
    else (update_run w.updates saved, none)

after_save : SaveWorld → String → Session → Session × Option SaveError
after_save w run_status s = elim w.save_file [
  | none ↦ no_save_file w s
  | some zero ↦ no_save_file w s
  | some (suc n) ↦ upload_save w run_status s
]

-- performSave; `setMode` sets the mode on the way in and on every way out.
pub perform_save : SaveWorld → String → Session → Session × Option SaveError
perform_save w run_status s =
    let entered = record s { mode = saving } in
    if not s.started || not s.has_cmd || not s.has_work_dir || not s.has_stdin
    then (s, some not_started)
    else if s.unsavable
    then (s, none)
    else if not w.quiet
    then (s, some interpreter_busy)
    else if not w.writes
    then (record entered { mode = normal }, some write_failed)
    else if w.ctx_done
    then (record entered { mode = normal }, some cancelled)
    else after_save w run_status (record entered { mode = normal })

-- performAutoSave: deferred while a command holds the lock.
pub perform_auto_save : SaveWorld → Session → Session × Option SaveError
perform_auto_save w s =
    if s.command_lock
    then (s, none)
    else (let (s', e) = perform_save w status_running (record s { command_lock = true }) in
        (record s' { command_lock = false }, e))

-- Suspend
pub suspend : SaveWorld → Session → Session × Option SaveError
suspend w s =
    if s.command_lock
    then (s, some busy)
    else (let (s', e) = perform_save w status_suspended (record s { command_lock = true }) in
        (record s' { command_lock = false }, e))

-- What an exiting interpreter meets: the path that the transcript was uploaded to (`none` if it was
-- empty or did not upload), the time, and whether an update of the run writes
-- its row.
pub record ExitWorld : Type 0 where
  pub transcript : Option String
  pub now : ℕ
  pub updates : Bool

keep_transcript : Option String → Run → Run
keep_transcript none run = run
keep_transcript (some path) run =
    if str_eq run.transcript_path "" then record run { transcript_path = path } else run

-- pumpOutputToChannel from line 448 on.
pub exit : ExitWorld → Session → Session
exit x s =
    let run = keep_transcript x.transcript s.run in
    let ended = record run { finished_at = some x.now; status = status_finished } in
    let s' =
      if str_eq run.status status_running
      then update_run x.updates (record s { run = ended })
      else record s { run = run } in
    record s' { alive = false }

-- kill: signals the process and waits until `exit` has run.
pub kill : ExitWorld → Session → Session
kill x s = if s.started && s.has_cmd && s.alive then exit x s else s

-- SuspendAndStop
pub suspend_and_stop : SaveWorld → ExitWorld → Session → Session × Option SaveError
suspend_and_stop w x s =
    if s.command_lock
    then (kill x s, some busy)
    else (let (s', e) = perform_save w status_suspended (record s { command_lock = true }) in
        (record (kill x s') { command_lock = false }, e))
