-- ===== src/Runner/Session/Save.antt =====
-- performSave (service/internal/runner/save.go) and its callers: what a save leaves behind.
use aifstudio.Prelude.{
  ◌+◌, String, ◌≡◌, refl, ◌∙◌, ◌⊎◌, true, false, ◌∷◌, Option, none, some, arith, str_eq_iff, ◌≢◌,
}
use aifstudio.Runner.Session.{
  Run, status_running, status_suspended, status_finished, unsavable_mark, normal, Session,
  SaveError, SaveWorld, ExitWorld, update_run, save_blob, no_save_file, upload_save, after_save,
  perform_save, keep_transcript, exit, kill, suspend_and_stop,
}

-- A save that fails has changed nothing but the mode, and the mode it leaves is the one it met or
-- the normal one.
pub failed_save_keeps :
    (w : SaveWorld) (st : String) (s : Session) {e : SaveError}
    → (perform_save w st s).1 ≡ some e
    → ((perform_save w st s).0 ≡ s) ⊎ ((perform_save w st s).0 ≡ record s { mode = normal })
unfolding perform_save after_save no_save_file upload_save
failed_save_keeps w st s h = ground arith

-- No save returns with the interpreter's output suppressed, if it was not before.
pub save_mode :
    (w : SaveWorld) (st : String) (s : Session)
    → s.mode ≡ normal
    → (perform_save w st s).0.mode ≡ normal
unfolding perform_save after_save no_save_file upload_save update_run
save_mode w st s h = ground arith

-- A save that reports no error skipped a session known to be unsavable; or found no save file on
-- the run's first save and marked the session and the run for good; or uploaded the file, counted a
-- turn and wrote the blob's path and the caller's status into the run. In the last two cases the row
-- of the store is the run, if the update of the row writes it.
pub save_outcome :
    (w : SaveWorld) (st : String) (s : Session)
    → (perform_save w st s).1 ≡ none
    → let s' = (perform_save w st s).0 in
      ((s.unsavable ≡ true) × (s' ≡ s))
      ⊎ ((s.run.save_path ≡ "")
          × (s'.unsavable ≡ true)
          × (s'.run.save_path ≡ unsavable_mark)
          × (s'.run.status ≡ s.run.status)
          × (s'.uploads ≡ s.uploads)
          × (w.updates ≡ true → s'.stored ≡ s'.run))
      ⊎ ((s'.run.save_path ≡ save_blob s.run.id)
          × (s'.uploads ≡ save_blob s.run.id ∷ s.uploads)
          × (s'.run.turn_count ≡ s.turn_count + 1)
          × (s'.turn_count ≡ s.turn_count + 1)
          × (s'.run.status ≡ st)
          × (w.updates ≡ true → s'.stored ≡ s'.run))
unfolding perform_save after_save no_save_file upload_save update_run
save_outcome w st s h = ground (arith, str_eq_iff s.run.save_path "")

-- What a save leaves of the fields that tell whether there is a process to kill.
perform_save_process :
    (w : SaveWorld) (st : String) (s : Session)
    → let s' = (perform_save w st s).0 in
      (s'.started ≡ s.started) × (s'.has_cmd ≡ s.has_cmd) × (s'.alive ≡ s.alive)
unfolding perform_save after_save no_save_file upload_save update_run
perform_save_process w st s = ground arith

-- The status that a save leaves, by whether it took place.
SavedStatus : SaveWorld → String → Session → Type 0
SavedStatus w st s =
    let (s', e) = perform_save w st s in
    ((e ≡ none) × (s'.unsavable ≡ false) × (s'.run.status ≡ st))
    ⊎ ((s'.run.status ≡ s.run.status) × ((e ≢ none) ⊎ (s'.unsavable ≡ true)))

perform_save_status : (w : SaveWorld) (st : String) (s : Session) → SavedStatus w st s
unfolding SavedStatus perform_save after_save no_save_file upload_save update_run
perform_save_status w st s = ground arith

keep_transcript-status :
    (t : Option String) (run : Run) → (keep_transcript t run).status ≡ run.status
unfolding keep_transcript
keep_transcript-status none run = refl
keep_transcript-status (some path) run = ground arith

kill_status :
    (x : ExitWorld) (s : Session)
    → s.started ≡ true
    → s.has_cmd ≡ true
    → s.alive ≡ true
    → ((kill x s).alive ≡ false)
      × ((kill x s).unsavable ≡ s.unsavable)
      × (s.run.status ≡ status_running → (kill x s).run.status ≡ status_finished)
      × (s.run.status ≡ status_suspended → (kill x s).run.status ≡ status_suspended)
unfolding kill exit update_run
kill_status x s a b c = ground (
  arith,
  keep_transcript-status x.transcript s.run,
  str_eq_iff (keep_transcript x.transcript s.run).status status_running,
  str_eq_iff status_suspended status_running,
)

-- SuspendAndStop of a running session that no command holds kills the interpreter. If the save took
-- place the run ends as suspended. If it failed, or the game cannot save, the run ends as finished.
pub suspend_and_stop_status :
    (w : SaveWorld) (x : ExitWorld) (s : Session)
    → s.command_lock ≡ false
    → s.run.status ≡ status_running
    → s.started ≡ true
    → s.has_cmd ≡ true
    → s.alive ≡ true
    → let (s', e) = suspend_and_stop w x s in
      (s'.alive ≡ false)
      × (s'.command_lock ≡ false)
      × (((e ≡ none) × (s'.unsavable ≡ false) × (s'.run.status ≡ status_suspended))
          ⊎ (((e ≢ none) ⊎ (s'.unsavable ≡ true)) × (s'.run.status ≡ status_finished)))
unfolding suspend_and_stop SavedStatus
suspend_and_stop_status w x s a b c d f =
    let t = record s { command_lock = true } in
    let (p, q, r) = perform_save_process w status_suspended t in
    let k = kill_status x (perform_save w status_suspended t).0 (p ∙ c) (q ∙ d) (r ∙ f) in
    let o = perform_save_status w status_suspended t in ground arith
