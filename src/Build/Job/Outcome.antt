-- ===== src/Build/Job/Outcome.antt =====
-- runBuild (service/internal/build/manager.go): how a build ends.
use aifstudio.Prelude.{◌≡◌, ◌⊎◌, true, false, ◌∷◌, none, some, arith, str_eq_iff, ◌≢◌}
use aifstudio.Build.Job.{
  Job, World, status_succeeded, status_failed, artifact_blob, log_blob, update_build,
  upload_log_only, upload_artifacts, first_time, with_log, fail_build, or_empty, compile_failed,
  succeed, publish, run_build,
}

-- A build as runBuild leaves it.
pub record IsEnded (w : World) (before after : Job) : Type 0 where
  pub status : (after.build.status ≡ status_succeeded) ⊎ (after.build.status ≡ status_failed)
  pub started : after.build.started_at ≡ some w.started
  pub finished : after.build.finished_at ≢ none
  pub same_id : after.build.id ≡ before.build.id
  pub stored : w.last_update ≡ true → after.row ≡ after.build

-- Every build ends: whatever fails on the way, its status is `succeeded` or `failed`, it has the time
-- of its start and a time of its end, and the row of the store is the build if the last update
-- writes it.
pub run_build_ends : (w : World) (j : Job) → IsEnded w j (run_build w j)
unfolding run_build publish succeed compile_failed or_empty fail_build with_log first_time
    upload_artifacts upload_log_only update_build
run_build_ends w j = ground arith

-- A build succeeds exactly if the project was laid out, the compiler reported no error, the artifact
-- is there and can be read, and artifact and log were uploaded.
pub run_build_succeeds_iff :
    (w : World) (j : Job)
    → let ready =
        (w.layout_error ≡ none)
        × (w.compile_error ≡ none)
        × (w.artifact_missing ≡ false)
        × (w.artifact_reads ≡ true)
        × (w.artifact_uploads ≡ true)
        × (w.log_uploads ≡ true) in
      ((run_build w j).build.status ≡ status_succeeded → ready)
      × (ready → (run_build w j).build.status ≡ status_succeeded)
unfolding run_build publish succeed compile_failed or_empty fail_build with_log first_time
    upload_artifacts upload_log_only update_build
run_build_succeeds_iff w j = ground (arith, str_eq_iff status_failed status_succeeded)

-- A build that succeeds has uploaded its artifact and then its log under the build's id, records both
-- paths and the format, and becomes the project's latest build if the store accepts that; a build
-- that fails leaves the artifact's path and the latest build as they were.
pub run_build_publishes :
    (w : World) (j : Job)
    → let k = run_build w j in
      ((k.build.status ≡ status_succeeded)
        × (k.blobs ≡ log_blob j.build.id ∷ artifact_blob j.build.id ∷ j.blobs)
        × (k.build.artifact_path ≡ artifact_blob j.build.id)
        × (k.build.artifact_format ≡ "ulx")
        × (k.build.log_path ≡ log_blob j.build.id)
        × (w.latest_update ≡ true → k.latest ≡ some j.build.id))
      ⊎ ((k.build.status ≡ status_failed)
          × (k.build.artifact_path ≡ j.build.artifact_path)
          × (k.latest ≡ j.latest))
unfolding run_build publish succeed compile_failed or_empty fail_build with_log first_time
    upload_artifacts upload_log_only update_build
run_build_publishes w j = ground arith
