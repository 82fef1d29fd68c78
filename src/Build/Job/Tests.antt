-- ===== src/Build/Job/Tests.antt =====
-- Builds that succeed and fail (service/internal/build/manager.go).
use aifstudio.Prelude.{◌≡◌, refl, true, false, [], ◌∷◌, none}
use aifstudio.Build.Job.{
  Build, Job, World, status_succeeded, artifact_blob, log_blob, update_build, upload_artifacts,
  succeed, publish, run_build,
}
use aifstudio.Build.Job.Outcome.{IsEnded, run_build_ends, run_build_succeeds_iff}

abbrev queued : Build
queued = record {
  id = "b-1";
  project_id = "p-1";
  status = "pending";
  started_at = none;
  finished_at = none;
  artifact_format = "";
  artifact_path = "";
  log_path = "";
  error_message = "";
}

abbrev job : Job
job = record { build = queued; row = queued; blobs = []; latest = none }

abbrev fine : World
fine = record {
  started = 1;
  first_update = true;
  layout_error = none;
  compile_error = none;
  compile_log = "ok";
  compiled = 2;
  artifact_missing = false;
  artifact_reads = true;
  artifact_uploads = true;
  log_uploads = true;
  upload_error = "";
  failed_at = 3;
  last_update = true;
  latest_update = true;
}

fine_run : (run_build fine job).blobs ≡ "builds/b-1/build.log" ∷ "builds/b-1/story.ulx" ∷ []
unfolding run_build publish succeed upload_artifacts update_build artifact_blob log_blob
fine_run = refl

run_build_ends_example : IsEnded fine job (run_build fine job)
run_build_ends_example = run_build_ends fine job

run_build_succeeds_iff_example :
    let ready =
      (fine.layout_error ≡ none)
      × (fine.compile_error ≡ none)
      × (fine.artifact_missing ≡ false)
      × (fine.artifact_reads ≡ true)
      × (fine.artifact_uploads ≡ true)
      × (fine.log_uploads ≡ true) in
    ((run_build fine job).build.status ≡ status_succeeded → ready)
    × (ready → (run_build fine job).build.status ≡ status_succeeded)
run_build_succeeds_iff_example = run_build_succeeds_iff fine job
