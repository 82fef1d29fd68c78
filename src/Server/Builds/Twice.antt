-- ===== src/Server/Builds/Twice.antt =====
-- Two builds of one project (handleCreateBuild in service/internal/server/handlers_projects.go with
-- StartBuild in service/internal/build/manager.go).
use aifstudio.Prelude.{
  ℕ, String, ◌≡◌, refl, ap, ◌∙◌, true, false, none, some, [], ◌∷◌, is_some, str_eq, str_eq_refl,
}
use aifstudio.Dict.{insert, lookup-insert}
use aifstudio.Text.{Text}
use aifstudio.Auth.Tables.{User}
use aifstudio.Store.Table.{find_row}
use aifstudio.Store.Rows.{Project, Build, Db, build_row}
use aifstudio.Store.Projects.{project_key, has_project, get_project_source}
use aifstudio.Store.Records.{build_key, create_build}
use aifstudio.Store.Projects
use aifstudio.Build.Slots.{Manager, claim, active_build_id}
use aifstudio.Server.Http.{replied, checked, is_id}
use aifstudio.Server.Http.Owned.{all_answer, open_project-pass}
use aifstudio.Server.Builds.{
  BuildState, conflict, new_build, accepted_reply, start_build, handle_create_build,
}

-- The manager with a slot taken.
abbrev pub with_slot : String → String → Manager → Manager
with_slot pid bid m = (claim pid bid m).0

claim-free :
    (pid bid : String) (m : Manager)
    → active_build_id pid m ≡ none
    → claim pid bid m ≡ (
      record { active_builds = insert pid bid m.active_builds; owners = (pid, bid) ∷ m.owners },
      none,
    )
unfolding claim active_build_id
claim-free pid bid m n = rw (claim, n) refl

claim-taken :
    (pid bid : String) (m : Manager)
    → active_build_id pid m ≡ none
    → active_build_id pid (with_slot pid bid m) ≡ some bid
unfolding active_build_id
claim-taken pid bid m n =
    ap (λ r. active_build_id pid r.0) (claim-free pid bid m n)
    ∙ lookup-insert pid pid bid m.active_builds
    ∙ rw (str_eq_refl pid) refl

claim-conflict :
    (pid bid other : String) (m : Manager)
    → active_build_id pid m ≡ some other
    → (claim pid bid m).1 ≡ some other
unfolding claim active_build_id
claim-conflict pid bid other m e = rw (claim, e) refl

create_build-true :
    (b : Build) (db : Db)
    → is_some (find_row build_key b.id db.builds) ≡ false
    → has_project b.project_id db ≡ true
    → create_build true b db ≡ (record db { builds = build_row b ∷ db.builds }, true)
unfolding create_build
create_build-true b db fresh there = rw (create_build, fresh, there) refl

-- The source that GetProjectSource gives.
abbrev pub source_in : String → Db → Text
source_in id db = elim (find_row Projects.source_key id db.sources) [
  | none ↦ []
  | some s ↦ s.source
]

abbrev pub building : Build → Text → Manager → BuildState → BuildState
building b source m s = record {
  db = record s.db { builds = build_row b ∷ s.db.builds };
  builder = some (with_slot b.project_id b.id m);
  jobs = (b, source) ∷ s.jobs;
}

start_build-accepted :
    (m : Manager) (b : Build) (source : Text) (s : BuildState)
    → active_build_id b.project_id m ≡ none
    → is_some (find_row build_key b.id s.db.builds) ≡ false
    → has_project b.project_id s.db ≡ true
    → start_build all_answer m b source s ≡ (building b source m s, accepted_reply b)
unfolding start_build
start_build-accepted m b source s free fresh there =
    rw
      (
        start_build,
        ap (λ r. r.1) (claim-free b.project_id b.id m free),
        create_build-true b s.db fresh there,
        create_build-true b s.db fresh there,
      )
      refl

start_build-refused :
    (m : Manager) (b : Build) (source : Text) (s : BuildState) (other : String)
    → active_build_id b.project_id m ≡ some other
    → start_build all_answer m b source s ≡ (s, replied 409 (conflict other))
unfolding start_build
start_build-refused m b source s other e =
    rw (start_build, claim-conflict b.project_id b.id other m e, e) refl

-- For the owner of a project without an active build, when the database answers each call and the new
-- id is free: handleCreateBuild answers 202, stores the pending build, takes the project's slot and
-- starts one job with the source as it is stored. A further call before the job ends answers 409 with
-- the id of the first build and changes nothing.
pub handle_create_build-twice :
    (u : User) (id b1 b2 : String) (now later : ℕ) (m : Manager) (s : BuildState) (p : Project)
    → is_id b'p' id ≡ true
    → find_row project_key id s.db.projects ≡ some p
    → str_eq p.owner_uid u.uid ≡ true
    → s.builder ≡ some m
    → active_build_id id m ≡ none
    → is_some (find_row build_key b1 s.db.builds) ≡ false
    → (after : BuildState) × (after ≡ building (new_build b1 id u.uid now) (source_in id s.db) m s)
      × (handle_create_build all_answer true (some u) id b1 now s
          ≡ (after, accepted_reply (new_build b1 id u.uid now)))
      × (handle_create_build all_answer true (some u) id b2 later after
          ≡ (after, replied 409 (conflict b1)))
unfolding handle_create_build checked get_project_source has_project
handle_create_build-twice u id b1 b2 now later m s p i found owner with_m free fresh =
    let after = building (new_build b1 id u.uid now) (source_in id s.db) m s in
    (
      after,
      refl,
      rw (handle_create_build, open_project-pass u id s.db p i found owner, with_m)
          (start_build-accepted m (new_build b1 id u.uid now) (source_in id s.db) s free fresh
            (rw (has_project, found) refl)),
      rw (handle_create_build, open_project-pass u id after.db p i found owner)
          (start_build-refused (with_slot id b1 m) (new_build b2 id u.uid later) (source_in id s.db)
            after b1 (claim-taken id b1 m free)),
    )
