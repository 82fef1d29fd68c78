-- ===== src/Build/Job.antt =====
-- runBuild, failBuild (service/internal/build/manager.go) and the uploads of
-- service/internal/build/artifacts.go: one build from its row to its end. What the file system, the
-- compiler, the clock and the store answer during the build is a record.
pub mod Outcome
mod Tests
use Prim.Native.String.{◌++◌ as concat}
use aifstudio.Prelude.{
  ℕ, String, Bool, true, false, not, List, [], ◌∷◌, Option, none, some, str_eq, if◌then◌else◌,
}

abbrev pub status_pending : String
status_pending = "pending"

abbrev pub status_running : String
status_running = "running"

abbrev pub status_succeeded : String
status_succeeded = "succeeded"

abbrev pub status_failed : String
status_failed = "failed"

-- store.Build (service/internal/store/store.go)
pub record Build : Type 0 where
  pub id : String
  pub project_id : String
  pub status : String
  pub started_at : Option ℕ
  pub finished_at : Option ℕ
  pub artifact_format : String
  pub artifact_path : String
  pub log_path : String
  pub error_message : String

-- The build, its row in the store, the blobs written for it (the latest first), and the project's
-- latest build as far as this build set it.
pub record Job : Type 0 where
  pub build : Build
  pub row : Build
  pub blobs : List String
  pub latest : Option String

pub record World : Type 0 where
  pub started : ℕ
  pub first_update : Bool
  pub layout_error : Option String
  pub compile_error : Option String
  pub compile_log : String
  pub compiled : ℕ
  pub artifact_missing : Bool
  pub artifact_reads : Bool
  pub artifact_uploads : Bool
  pub log_uploads : Bool
  pub upload_error : String
  pub failed_at : ℕ
  pub last_update : Bool
  pub latest_update : Bool

pub artifact_blob : String → String
artifact_blob id = concat "builds/" (concat id "/story.ulx")

pub log_blob : String → String
log_blob id = concat "builds/" (concat id "/build.log")

-- st.UpdateBuild, with whether it writes the row: an error is logged or dropped, and an update that
-- finds no row succeeds without one.
update_build : Bool → Job → Job
update_build writes j = if writes then record j { row = j.build } else j

-- uploadLogOnly: the path of the log, or an error.
upload_log_only : World → Job → Job × Option String
upload_log_only w j =
    let path = log_blob j.build.id in
    if w.log_uploads then (record j { blobs = path ∷ j.blobs }, some path) else (j, none)

-- uploadArtifacts: the paths of the artifact and the log, or an error.
upload_artifacts : World → Job → Job × Option (String × String)
upload_artifacts w j =
    let path = artifact_blob j.build.id in
    let log = log_blob j.build.id in
    if not w.artifact_reads
    then (j, none)
    else if not w.artifact_uploads
    then (j, none)
    else if not w.log_uploads
    then (record j { blobs = path ∷ j.blobs }, none)
    else (record j { blobs = log ∷ path ∷ j.blobs }, some (path, log))

first_time : Option ℕ → ℕ → Option ℕ
first_time none now = some now
first_time (some t) now = some t

with_log : Option String → Build → Build
with_log none b = b
with_log (some path) b = record b { log_path = path }

-- failBuild
fail_build : World → String → String → Job → Job
fail_build w message log j =
    let b = j.build in
    let failed = record b {
      finished_at = first_time b.finished_at w.failed_at;
      status = status_failed;
      error_message = message;
    } in
    let j' = record j { build = failed } in
    let (j'', path) = upload_log_only w j' in
    let logged = record j'' { build = with_log path failed } in
    if str_eq log "" then update_build w.last_update j' else update_build w.last_update logged

or_empty : Option String → String
or_empty none = ""
or_empty (some s) = s

-- Lines 119-139: the compiler failed.
compile_failed : World → String → Job → Job
compile_failed w message j =
    let (j', path) = upload_log_only w j in
    let b = j'.build in
    update_build w.last_update (record j' {
      build = record b {
        log_path = or_empty path;
        status = status_failed;
        error_message = message;
      };
    })

-- Lines 154-163: artifact and log are uploaded.
succeed : World → String → String → Job → Job
succeed w artifact log j =
    let b = j.build in
    let j' = update_build w.last_update (record j {
      build = record b {
        status = status_succeeded;
        artifact_format = "ulx";
        artifact_path = artifact;
        log_path = log;
      };
    }) in
    if w.latest_update then record j' { latest = some b.id } else j'

-- Lines 141-163: the compiler reported success.
publish : World → Job → Job
publish w j =
    let (j', paths) = upload_artifacts w j in
    if w.artifact_missing
    then fail_build w "compiler reported success but no artifact produced" w.compile_log j
    else elim paths [
      | none ↦ fail_build w (concat "upload failed: " w.upload_error) w.compile_log j'
      | some (artifact, log) ↦ succeed w artifact log j'
    ]

-- runBuild, without the slot (see Build/Slots.antt) and the working directory.
pub run_build : World → Job → Job
run_build w j =
    let b = j.build in
    let running = record b { status = status_running; started_at = some w.started } in
    let j₁ = update_build w.first_update (record j { build = running }) in
    elim w.layout_error [
      | some e ↦ fail_build w (concat "failed to create project layout: " e) "" j₁
      | none ↦
          let j₂ = record j₁ { build = record running { finished_at = some w.compiled } } in
          elim w.compile_error [ some e ↦ compile_failed w e j₂ | none ↦ publish w j₂ ]
    ]
