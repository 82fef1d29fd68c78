-- ===== src/Server/Community/Play.antt =====
-- Publishing a project, and playing it (service/internal/server/handlers_community.go).
use aifstudio.Prelude.{
  ℕ, String, ◌≡◌, refl, Bool, true, false, some, ◌∷◌, is_some, str_eq, str_eq_refl, ◌++◌,
}
use aifstudio.Text.{text}
use aifstudio.Auth.Tables.{User, fmt_time}
use aifstudio.Store.Table.{find_row}
use aifstudio.Store.Table.Keys.{find_row-update_where}
use aifstudio.Store.Rows.{Project, Build, Db, has_user, run_row, scan_project, scan_build}
use aifstudio.Store.Runs.{run_key, create_run}
use aifstudio.Store.Projects.{
  project_key, source_key, get_project, get_project_source_size, set_project, set_project_published,
}
use aifstudio.Store.Projects
use aifstudio.Store.Records.{build_key, get_build}
use aifstudio.Store.Records
use aifstudio.Build.Job.{status_succeeded}
use aifstudio.Server.Http.{refused, replied, pass, checked, and_then, signed_in, is_id}
use aifstudio.Server.Http.Owned.{all_answer, own_project-pass}
use aifstudio.Server.Projects.{decoded}
use aifstudio.Server.Community.{
  succeeded_build, has_source, publishable, may_publish, open_publish, published_project,
  ready_build, open_play, community_run, handle_toggle_publish, handle_community_play,
}
use aifstudio.Server.Community.Needs.{IsReady}

abbrev pub switched : String → Bool → ℕ → Db → Db
switched id true now db =
    set_project id (λ p. record p { published = true; published_at = some (fmt_time now) }) db
switched id false now db = set_project id (λ p. record p { published = false }) db

module _ (p : Project) (id : String) (db : Db)
    (found : find_row project_key id db.projects ≡ some p) where
  switched-on :
      (now : ℕ)
      → find_row project_key id (switched id true now db).projects
        ≡ some (record p { published = true; published_at = some (fmt_time now) })
  unfolding set_project
  switched-on now =
      rw
        (
          find_row-update_where project_key
              (λ q. record q { published = true; published_at = some (fmt_time now) }) id
              (λ q _. refl) id db.projects,
          str_eq_refl id,
          found,
        )
        refl

  switched-off :
      (now : ℕ)
      → find_row project_key id (switched id false now db).projects
        ≡ some (record p { published = false })
  unfolding set_project
  switched-off now =
      rw
        (
          find_row-update_where project_key (λ q. record q { published = false }) id (λ q _. refl)
              id db.projects,
          str_eq_refl id,
          found,
        )
        refl

succeeded_build-some :
    (p : Project) (db : Db) (b : Build)
    → find_row build_key p.latest_build_id db.builds ≡ some b
    → str_eq b.status status_succeeded ≡ true
    → succeeded_build all_answer p db ≡ some (scan_build b)
unfolding succeeded_build get_build Records.scanned scan_build
succeeded_build-some p db b e y = rw (succeeded_build, e, y) refl

publishable-pass :
    (p : Project) (id : String) (db : Db)
    → str_eq p.latest_build_id "" ≡ false
    → IsReady p id db
    → publishable all_answer p id db ≡ pass tt
unfolding publishable has_source get_project_source_size
publishable-pass p id db n r =
    rw
      (
        publishable,
        n,
        succeeded_build-some p db r.build r.built r.succeeded,
        has_source,
        r.written,
        r.nonempty,
      )
      refl

scan-IsReady :
    (p : Project) (id : String) (db : Db) → IsReady p id db → IsReady (scan_project p) id db
unfolding scan_project
scan-IsReady p id db r = record {
  build = r.build;
  built = r.built;
  succeeded = r.succeeded;
  source = r.source;
  written = r.written;
  nonempty = r.nonempty;
}

open_publish-pass :
    (u : User) (id : String) (on : Bool) (db : Db) (p : Project)
    → is_id b'p' id ≡ true
    → find_row project_key id db.projects ≡ some p
    → str_eq p.owner_uid u.uid ≡ true
    → may_publish on all_answer (scan_project p) id db ≡ pass tt
    → open_publish all_answer (some u) id (some on) db ≡ pass (on, scan_project p)
unfolding open_publish signed_in decoded and_then
open_publish-pass u id on db p i found owner may =
    rw (open_publish, i, own_project-pass u.uid id db p found owner, may) refl

published_project-pass :
    (id : String) (db : Db) (p : Project)
    → find_row project_key id db.projects ≡ some p
    → p.published ≡ true
    → str_eq p.latest_build_id "" ≡ false
    → published_project all_answer id db ≡ pass (scan_project p)
unfolding published_project get_project Projects.scanned scan_project
published_project-pass id db p found on n = rw (published_project, found, on, n) refl

open_play-pass :
    (v : User) (id : String) (db : Db) (p : Project) (b : Build)
    → is_id b'p' id ≡ true
    → find_row project_key id db.projects ≡ some p
    → p.published ≡ true
    → str_eq p.latest_build_id "" ≡ false
    → find_row build_key p.latest_build_id db.builds ≡ some b
    → str_eq b.status status_succeeded ≡ true
    → open_play all_answer (some v) id db ≡ pass (v, scan_project p, scan_build b)
unfolding open_play signed_in and_then ready_build scan_project
open_play-pass v id db p b i found on n built good =
    rw
      (
        open_play,
        i,
        published_project-pass id db p found on n,
        ready_build,
        succeeded_build-some (scan_project p) db b built good,
      )
      refl

-- When the database answers each call: the owner of a project with a succeeded latest build and a
-- source that is not empty can publish it, and then every known user can play it under a new id. The
-- play adds one pending run of the player for that build and project and changes nothing else.
pub handle_toggle_publish-play :
    (u v : User) (id run_id : String) (now later : ℕ) (db : Db) (p : Project) (r : IsReady p id db)
    → is_id b'p' id ≡ true
    → find_row project_key id db.projects ≡ some p
    → str_eq p.owner_uid u.uid ≡ true
    → str_eq p.latest_build_id "" ≡ false
    → is_some (find_row run_key run_id db.runs) ≡ false
    → has_user v.uid db ≡ true
    → (handle_toggle_publish all_answer (some u) id (some true) now db ≡ (
      switched id true now db,
      replied 200 (record { id = id; published = true; published_at = some now }),
    ))
      × (handle_community_play all_answer (some v) id run_id later (switched id true now db) ≡ (
        record (switched id true now db) {
          runs =
              run_row (community_run run_id v.uid (scan_project p) (scan_build r.build) later)
              ∷ db.runs;
        },
        replied 201 (record {
          id = run_id;
          status = "pending";
          start_url = text "/api/runs/" ++ (text run_id ++ text "/start");
          created_at = later;
        }),
      ))
unfolding handle_toggle_publish checked may_publish set_project_published handle_community_play
    create_run set_project has_user scan_project
handle_toggle_publish-play u v id run_id now later db p r i found owner n fresh known = (
  rw
      (
        handle_toggle_publish,
        open_publish-pass u id true db p i found owner
            (publishable-pass (scan_project p) id db n (scan-IsReady p id db r)),
      )
      refl,
  rw
      (
        handle_community_play,
        open_play-pass v id (switched id true now db)
            (record p { published = true; published_at = some (fmt_time now) }) r.build i
            (switched-on p id db found now) refl n r.built r.succeeded,
        fresh,
        known,
      )
      refl,
)

-- When the database answers each call: the owner of a project can take it back, and then nobody can
-- play it; the attempt changes nothing.
pub handle_toggle_publish-unpublished :
    (u v : User) (id run_id : String) (now later : ℕ) (db : Db) (p : Project)
    → is_id b'p' id ≡ true
    → find_row project_key id db.projects ≡ some p
    → str_eq p.owner_uid u.uid ≡ true
    → ((handle_toggle_publish all_answer (some u) id (some false) now db).0
        ≡ switched id false now db)
      × (handle_community_play all_answer (some v) id run_id later (switched id false now db)
          ≡ (switched id false now db, refused 403 "not_published"))
unfolding handle_toggle_publish checked may_publish set_project_published handle_community_play
    open_play signed_in and_then published_project get_project Projects.scanned scan_project
handle_toggle_publish-unpublished u v id run_id now later db p i found owner = (
  rw (handle_toggle_publish, open_publish-pass u id false db p i found owner refl) refl,
  rw (handle_community_play, open_play, i, published_project, switched-off p id db found now) refl,
)
