-- ===== src/Store/Listings.antt =====
-- The listings of the store (service/internal/store/sqlite.go): which rows a list gives.
use aifstudio.Prelude.{ℕ, ◌≡◌, refl, String, Bool, true, List, map, if◌then◌else◌, ltb}
use aifstudio.Auth.Tables.{ok}
use aifstudio.Store.Table.{top, desc}
use aifstudio.Store.Table.Order.{IsTop, top-IsTop, desc_total, desc_trans}
use aifstudio.Store.Rows.{Run, Project, Build, Db, scan_run, scan_project, scan_build}
use aifstudio.Store.Runs.{
  clamp, run_of_user, run_of_project, active_at, list_runs_by_user, list_runs_by_project,
}
use aifstudio.Store.Projects.{
  build_of, project_of, published_time, list_projects_by_owner, list_published_projects,
}
use aifstudio.Store.Records.{list_builds_by_project}

-- The newest rows by `k`, of those that meet `p`.
newest :
    {R : Type 0} (p : R → Bool) (k : R → ℕ) (n : ℕ) (rs : List R)
    → IsTop p (desc k) n rs (top p (desc k) n rs)
newest p k n rs =
    top-IsTop p (desc k) (λ a b. desc_total (k a) (k b)) (λ a b c. desc_trans (k a) (k b) (k c)) n
      rs

-- ListRunsByUser gives rows of the user's runs only, the last active first, as many as there are up to
-- the limit put between 1 and 50, and no row that it leaves out was active later than one that it
-- gives.
pub list_runs_by_user_lem :
    (uid : String) (limit : ℕ) (db : Db)
    → (rows : List Run) × (list_runs_by_user true uid limit db ≡ ok (map scan_run rows))
      × IsTop (run_of_user uid) (desc active_at) (clamp 1 50 limit) db.runs rows
unfolding list_runs_by_user
list_runs_by_user_lem uid limit db =
    (_, refl, newest (run_of_user uid) active_at (clamp 1 50 limit) db.runs)

-- ListRunsByProject likewise gives the runs of the project, the last created first, up to the limit put
-- between 1 and 500.
pub list_runs_by_project_lem :
    (pid : String) (limit : ℕ) (db : Db)
    → (rows : List Run) × (list_runs_by_project true pid limit db ≡ ok (map scan_run rows))
      × IsTop (run_of_project pid) (desc (λ r. r.created_at)) (clamp 1 500 limit) db.runs rows
unfolding list_runs_by_project
list_runs_by_project_lem pid limit db =
    (_, refl, newest (run_of_project pid) (λ r. r.created_at) (clamp 1 500 limit) db.runs)

-- ListProjectsByOwner gives the owner's projects only, the last updated first, as many as there are up
-- to the limit, which counts as at least 1.
pub list_projects_by_owner_lem :
    (uid : String) (limit : ℕ) (db : Db)
    → (rows : List Project) × (list_projects_by_owner true uid limit db
        ≡ ok (map scan_project rows))
      × IsTop
          (project_of uid)
          (desc (λ p. p.updated_at))
          (if ltb limit 1 then 1 else limit)
          db.projects
          rows
unfolding list_projects_by_owner
list_projects_by_owner_lem uid limit db = (
  _,
  refl,
  newest (project_of uid) (λ p. p.updated_at) (if ltb limit 1 then 1 else limit) db.projects,
)

-- ListPublishedProjects gives published projects only, the last published first, up to the limit put
-- between 1 and 50.
pub list_published_projects_lem :
    (limit : ℕ) (db : Db)
    → (rows : List Project) × (list_published_projects true limit db ≡ ok (map scan_project rows))
      × IsTop (λ p. p.published) (desc published_time) (clamp 1 50 limit) db.projects rows
unfolding list_published_projects
list_published_projects_lem limit db =
    (_, refl, newest (λ p. p.published) published_time (clamp 1 50 limit) db.projects)

-- ListBuildsByProject gives the project's builds only, the last created first, up to the limit, which
-- counts as at least 1.
pub list_builds_by_project_lem :
    (pid : String) (limit : ℕ) (db : Db)
    → (rows : List Build) × (list_builds_by_project true pid limit db ≡ ok (map scan_build rows))
      × IsTop
          (build_of pid)
          (desc (λ b. b.created_at))
          (if ltb limit 1 then 1 else limit)
          db.builds
          rows
unfolding list_builds_by_project
list_builds_by_project_lem pid limit db = (
  _,
  refl,
  newest (build_of pid) (λ b. b.created_at) (if ltb limit 1 then 1 else limit) db.builds,
)
