-- ===== src/Runner/Session/Tests.antt =====
-- Saves of a session (service/internal/runner/save.go, session.go).
use aifstudio.Prelude.{
  ℕ, ◌+◌, ◌*◌, ◌/◌, ◌≤◌, ◌≡◌, ◌≢◌, refl, ◌⊎◌, Bool, true, false, [], ◌∷◌, none, some, arith,
}
use aifstudio.Runner.Session.{
  Run, normal, Session, upload_failed, SaveWorld, ExitWorld, status_running, status_suspended,
  status_finished, unsavable_mark, save_blob, upload_save, after_save, perform_save,
  suspend_and_stop,
}
use aifstudio.Runner.Session.Save.{save_outcome, suspend_and_stop_status}
use aifstudio.Runner.Session.Wait.{wait_for_quiescence, wait_total, wait_from, quiesced}

abbrev run_one : Run
run_one = record {
  id = "r-1";
  status = "running";
  error_code = "";
  save_path = "";
  turn_count = 4;
  last_save_at = none;
  last_active_at = none;
  finished_at = none;
  transcript_path = "";
}

abbrev playing : Session
playing = record {
  run = run_one;
  stored = run_one;
  uploads = [];
  started = true;
  has_cmd = true;
  has_work_dir = true;
  has_stdin = true;
  command_lock = false;
  unsavable = false;
  mode = normal;
  turn_count = 4;
  alive = true;
}

abbrev good : SaveWorld
good = record {
  quiet = true;
  writes = true;
  ctx_done = false;
  save_file = some 100;
  opens = true;
  uploads = true;
  now = 7;
  updates = true;
}

abbrev no_blobs : SaveWorld
no_blobs = record {
  quiet = true;
  writes = true;
  ctx_done = false;
  save_file = some 100;
  opens = true;
  uploads = false;
  now = 7;
  updates = true;
}

abbrev at_exit : ExitWorld
at_exit = record { transcript = none; now = 9; updates = true }

save_fails : (perform_save no_blobs status_running playing).1 ≡ some upload_failed
unfolding perform_save after_save upload_save
save_fails = refl

save_works : (perform_save good status_running playing).1 ≡ none
unfolding perform_save after_save upload_save
save_works = refl

save_outcome_example :
    let s' = (perform_save good status_running playing).0 in
    ((playing.unsavable ≡ true) × (s' ≡ playing))
    ⊎ ((playing.run.save_path ≡ "")
        × (s'.unsavable ≡ true)
        × (s'.run.save_path ≡ unsavable_mark)
        × (s'.run.status ≡ playing.run.status)
        × (s'.uploads ≡ playing.uploads)
        × (good.updates ≡ true → s'.stored ≡ s'.run))
    ⊎ ((s'.run.save_path ≡ save_blob playing.run.id)
        × (s'.uploads ≡ save_blob playing.run.id ∷ playing.uploads)
        × (s'.run.turn_count ≡ playing.turn_count + 1)
        × (s'.turn_count ≡ playing.turn_count + 1)
        × (s'.run.status ≡ status_running)
        × (good.updates ≡ true → s'.stored ≡ s'.run))
save_outcome_example = save_outcome good status_running playing save_works

abbrev commanded : Session
commanded = record {
  run = run_one;
  stored = run_one;
  uploads = [];
  started = true;
  has_cmd = true;
  has_work_dir = true;
  has_stdin = true;
  command_lock = true;
  unsavable = false;
  mode = normal;
  turn_count = 4;
  alive = true;
}

suspend_and_stop_status_example :
    let (s', e) = suspend_and_stop no_blobs at_exit playing in
    (s'.alive ≡ false)
    × (s'.command_lock ≡ false)
    × (((e ≡ none) × (s'.unsavable ≡ false) × (s'.run.status ≡ status_suspended))
        ⊎ (((e ≢ none) ⊎ (s'.unsavable ≡ true)) × (s'.run.status ≡ status_finished)))
suspend_and_stop_status_example =
    suspend_and_stop_status no_blobs at_exit playing refl refl refl refl refl

-- Rounds 20 ms apart; the last output came 30 ms before the wait.
abbrev clock : ℕ → ℕ
clock j = 20 * j

abbrev idle : ℕ → ℕ
idle j = 30 + 20 * j

abbrev never : ℕ → Bool
never j = false

clock_runs : (j : ℕ) → 20 * j ≤ clock j
clock_runs j = omega arith

wait_total_example :
    (b : Bool) × (wait_for_quiescence clock idle never 200 2000 (2000 / 20 + 2) ≡ some b)
wait_total_example = wait_total clock idle never 200 2000 clock_runs

waits : wait_for_quiescence clock idle never 200 2000 102 ≡ some true
unfolding wait_for_quiescence wait_from quiesced
waits = refl
