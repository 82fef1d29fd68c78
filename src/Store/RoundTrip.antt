-- ===== src/Store/RoundTrip.antt =====
-- Runs, builds and projects that are written to the store and read back
-- (service/internal/store/sqlite.go).
use aifstudio.Prelude.{
  ℕ, ◌-◌, ◌%◌, ◌≡◌, refl, ap, String, true, not, ◌||◌, Option, none, some, arith, is_some, str_eq,
  if◌then◌else◌, Bool-cases, inl, inr,
}
use aifstudio.Auth.Tables.{ok, second, fmt_time, parse_time}
use aifstudio.Store.Table.{find_row}
use aifstudio.Store.Table.Keys.{find_row-cons}
use aifstudio.Store.Rows.{
  Run, Build, Db, has_user, null_time_val, parse_null_time, run_row, scan_run, build_row,
  scan_build,
}
use aifstudio.Store.Runs.{run_key, create_run, get_run}
use aifstudio.Store.Projects.{has_project}
use aifstudio.Store.Records.{build_key, create_build, get_build, update_build}
use aifstudio.Store.Runs
use aifstudio.Store.Records

-- The start of the second in which a time lies.
abbrev pub whole : ℕ → ℕ
whole t = t - t % second

abbrev pub whole_option : Option ℕ → Option ℕ
whole_option none = none
whole_option (some t) = some (whole t)

-- A run and a build with whole seconds for their times.
abbrev pub whole_run : Run → Run
whole_run r = record r {
  created_at = whole r.created_at;
  started_at = whole_option r.started_at;
  finished_at = whole_option r.finished_at;
  last_active_at = whole_option r.last_active_at;
  last_save_at = whole_option r.last_save_at;
}

abbrev pub whole_build : Build → Build
whole_build b = record b {
  created_at = whole b.created_at;
  started_at = whole_option b.started_at;
  finished_at = whole_option b.finished_at;
}

parse_time-fmt_time : (t : ℕ) → parse_time (fmt_time t) ≡ whole t
unfolding parse_time fmt_time
parse_time-fmt_time t = omega arith

parse_null_time-null_time_val : (t : Option ℕ) → parse_null_time (null_time_val t) ≡ whole_option t
unfolding parse_null_time null_time_val
parse_null_time-null_time_val none = refl
parse_null_time-null_time_val (some t) = ap some (parse_time-fmt_time t)

scan_run-run_row : (r : Run) → scan_run (run_row r) ≡ whole_run r
unfolding scan_run run_row
scan_run-run_row r = simp (parse_time-fmt_time, parse_null_time-null_time_val)

scan_build-build_row : (b : Build) → scan_build (build_row b) ≡ whole_build b
unfolding scan_build build_row
scan_build-build_row b = simp (parse_time-fmt_time, parse_null_time-null_time_val)

module _ (r : Run) (db : Db) where
  create_run-find :
      (create_run true r db).1 ≡ true
      → (k : String)
      → find_row run_key k (create_run true r db).0.runs
        ≡ (if str_eq r.id k then some (run_row r) else find_row run_key k db.runs)
  unfolding create_run run_row
  create_run-find y k =
      elim (Bool-cases (is_some (find_row run_key r.id db.runs) || not (has_user r.user_id db))) [
        | inl n ↦ absurd (ground arith)
        | inr n ↦ rw (n, find_row-cons run_key (run_row r) k db.runs) refl
      ]

  -- After CreateRun has stored a run, GetRun of its id gives the run with its times cut to whole
  -- seconds and everything else as it was, and GetRun of another id gives what it gave before.
  pub create_run-get_run :
      (create_run true r db).1 ≡ true
      → (k : String)
      → get_run true k (create_run true r db).0
        ≡ (if str_eq r.id k then ok (some (whole_run r)) else get_run true k db)
  unfolding get_run Runs.scanned
  create_run-get_run y k = rw (create_run-find y k) (elim (Bool-cases (str_eq r.id k)) [
    | inl e ↦ rw e (ap (λ x. ok (some x)) (scan_run-run_row r))
    | inr e ↦ rw e refl
  ])

module _ (b : Build) (db : Db) where
  create_build-find :
      (create_build true b db).1 ≡ true
      → (k : String)
      → find_row build_key k (create_build true b db).0.builds
        ≡ (if str_eq b.id k then some (build_row b) else find_row build_key k db.builds)
  unfolding create_build build_row
  create_build-find y k =
      elim (Bool-cases
        (is_some (find_row build_key b.id db.builds) || not (has_project b.project_id db))) [
          | inl n ↦ absurd (ground arith)
          | inr n ↦ rw (n, find_row-cons build_key (build_row b) k db.builds) refl
        ]

  -- After CreateBuild has stored a build, GetBuild of its id gives the build with its times cut to
  -- whole seconds and everything else as it was, and GetBuild of another id gives what it gave before.
  pub create_build-get_build :
      (create_build true b db).1 ≡ true
      → (k : String)
      → get_build true k (create_build true b db).0
        ≡ (if str_eq b.id k then ok (some (whole_build b)) else get_build true k db)
  unfolding get_build Records.scanned
  create_build-get_build y k = rw (create_build-find y k) (elim (Bool-cases (str_eq b.id k)) [
    | inl e ↦ rw e (ap (λ x. ok (some x)) (scan_build-build_row b))
    | inr e ↦ rw e refl
  ])
