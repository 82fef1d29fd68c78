-- ===== src/Server/Community/Needs.antt =====
-- What a project needs to be published (service/internal/server/handlers_community.go).
use aifstudio.Prelude.{
  ℕ, String, ◌≡◌, refl, sym, ap, ◌∙◌, Bool, true, false, Option, none, some, str_eq, ◌==◌, length,
  Bool-cases, Option-cases, inl, inr,
}
use aifstudio.Auth.Tables.{User}
use aifstudio.Store.Table.{find_row}
use aifstudio.Store.Rows.{Project, Source, Build, Db, scan_project, scan_build}
use aifstudio.Store.Projects.{project_key, source_key, get_project_source_size}
use aifstudio.Store.Records.{build_key, get_build}
use aifstudio.Store.Records
use aifstudio.Build.Job.{status_succeeded}
use aifstudio.Server.Http.{replied, pass, and_then, signed_in, require, is_id, Answers, own_project}
use aifstudio.Server.Http.Passed.{never, and_then-passed, checked-replied, own_project-passed}
use aifstudio.Server.Projects.{decoded}
use aifstudio.Server.Community.{
  PublishResponse, succeeded_build, has_source, publishable, may_publish, open_publish,
  handle_toggle_publish,
}

-- A build of the project that succeeded, and a source with at least one character.
pub record IsReady (p : Project) (id : String) (db : Db) : Type 0 where
  pub build : Build
  pub built : find_row build_key p.latest_build_id db.builds ≡ some build
  pub succeeded : str_eq build.status status_succeeded ≡ true
  pub source : Source
  pub written : find_row source_key id db.sources ≡ some source
  pub nonempty : (length source.source == 0) ≡ false

succeeded_build-passed :
    (a : Answers) (p : Project) (db : Db) (c : Build)
    → succeeded_build a p db ≡ some c
    → (b : Build) × (find_row build_key p.latest_build_id db.builds ≡ some b)
      × (str_eq b.status status_succeeded ≡ true)
unfolding succeeded_build get_build Records.scanned scan_build
succeeded_build-passed a p db c e = elim (Bool-cases a.get_build) [
  | inr n ↦ let z : succeeded_build a p db ≡ none = rw (succeeded_build, n) refl in absurd (cc)
  | inl y ↦ elim (Option-cases (find_row build_key p.latest_build_id db.builds)) [
    | inl n ↦ let z : succeeded_build a p db ≡ none = rw (succeeded_build, y, n) refl in absurd (cc)
    | inr (b, f) ↦ elim (Bool-cases (str_eq b.status status_succeeded)) [
      | inr n ↦
          let z : succeeded_build a p db ≡ none = rw (succeeded_build, y, f, n) refl in absurd (cc)
      | inl o ↦ (b, f, o)
    ]
  ]
]

has_source-passed :
    (a : Answers) (id : String) (db : Db)
    → has_source a id db ≡ pass tt
    → (s : Source) × (find_row source_key id db.sources ≡ some s) × ((length s.source == 0) ≡ false)
unfolding has_source get_project_source_size
has_source-passed a id db e = elim (Bool-cases a.source_size) [
  | inr n ↦ absurd (never (has_source a id db) 500 "internal" (rw (has_source, n) refl) e)
  | inl y ↦ elim (Option-cases (find_row source_key id db.sources)) [
    | inl n ↦ absurd (never (has_source a id db) 409 "empty_source" (rw (has_source, y, n) refl) e)
    | inr (s, f) ↦ elim (Bool-cases (length s.source == 0)) [
      | inl z ↦
          absurd (never (has_source a id db) 409 "empty_source" (rw (has_source, y, f, z) refl) e)
      | inr n ↦ (s, f, n)
    ]
  ]
]

publishable-IsReady :
    (a : Answers) (p : Project) (id : String) (db : Db)
    → publishable a p id db ≡ pass tt
    → IsReady p id db
unfolding publishable
publishable-IsReady a p id db e = elim (Bool-cases (str_eq p.latest_build_id "")) [
  | inl y ↦ absurd (never (publishable a p id db) 422 "build_required" (rw (publishable, y) refl) e)
  | inr n ↦ elim (Option-cases (succeeded_build a p db)) [
    | inl m ↦
        absurd (never (publishable a p id db) 422 "build_required" (rw (publishable, n, m) refl) e)
    | inr (c, f) ↦
        let (b, built, good) = succeeded_build-passed a p db c f in
        let z : publishable a p id db ≡ has_source a id db = rw (publishable, n, f) refl in
        let (s, written, full) = has_source-passed a id db (sym z ∙ e) in
        record {
          build = b;
          built = built;
          succeeded = good;
          source = s;
          written = written;
          nonempty = full;
        }
  ]
]

IsReady-scan :
    (p q : Project) (id : String) (db : Db) → scan_project p ≡ q → IsReady q id db → IsReady p id db
unfolding scan_project
IsReady-scan p q id db e r =
    let same : q.latest_build_id ≡ p.latest_build_id = ap (λ x. x.latest_build_id) (sym e) in
    record {
      build = r.build;
      built = rw (← same) r.built;
      succeeded = r.succeeded;
      source = r.source;
      written = r.written;
      nonempty = r.nonempty;
    }

open_publish-IsReady :
    (a : Answers) (u : User) (id : String) (db : Db) (x : Bool × Project)
    → open_publish a (some u) id (some true) db ≡ pass x
    → (p : Project) × (find_row project_key id db.projects ≡ some p)
      × (str_eq p.owner_uid u.uid ≡ true)
      × IsReady p id db
unfolding open_publish signed_in decoded and_then may_publish
open_publish-IsReady a u id db x o =
    let (_, _, o1) = and_then-passed (require (is_id b'p' id) 400 "invalid_id") _ x o in
    let (q, owned, o2) = and_then-passed (own_project a u.uid id db) _ x o1 in
    let (_, ready, _) = and_then-passed (publishable a q id db) _ x o2 in
    let (p, found, owner, same) = own_project-passed a u.uid id db q owned in
    (p, found, owner, IsReady-scan p q id db same (publishable-IsReady a q id db ready))

-- When handleTogglePublish answers 200 to a request to publish, whatever the store answered before, the
-- caller is signed in and owns the project, the project's latest build is there and has succeeded, and
-- the project has a source that is not empty.
pub handle_toggle_publish-IsReady :
    (a : Answers) (user : Option User) (id : String) (now : ℕ) (db : Db) (resp : PublishResponse)
    → (handle_toggle_publish a user id (some true) now db).1 ≡ replied 200 resp
    → (u : User) × (p : Project) × (user ≡ some u)
      × (find_row project_key id db.projects ≡ some p)
      × (str_eq p.owner_uid u.uid ≡ true)
      × IsReady p id db
unfolding handle_toggle_publish open_publish signed_in and_then
handle_toggle_publish-IsReady a none id now db resp e =
    let (_, o, _, _) = checked-replied (open_publish a none id (some true) db) db _ 200 resp e in
    absurd (never (open_publish a none id (some true) db) 401 "auth_required" refl o)
handle_toggle_publish-IsReady a (some u) id now db resp e =
    let (x, o, _, _) =
      checked-replied (open_publish a (some u) id (some true) db) db _ 200 resp e in
    let (p, found, owner, ready) = open_publish-IsReady a u id db x o in
    (u, p, refl, found, owner, ready)
