-- ===== src/Server/Cascade/Deleted.antt =====
-- What handleDeleteProject leaves (service/internal/server/handlers_projects.go).
use aifstudio.Prelude.{
  String, ◌≡◌, refl, ap, Bool, true, Option, some, List, [], ◌∷◌, Bool-cases, str_eq, inl, inr, ◌⊎◌,
}
use aifstudio.Auth.Tables.{User}
use aifstudio.Store.Table.{delete_where, find_row, has_key}
use aifstudio.Store.Rows.{Project, Db}
use aifstudio.Store.Runs.{run_of_project, list_runs_by_project, delete_runs_for_project}
use aifstudio.Store.Projects.{
  project_key, source_key, turn_of, build_of, delete_project_source, delete_project,
}
use aifstudio.Store.Records.{
  list_builds_by_project, delete_builds_for_project, delete_ai_conversation,
}
use aifstudio.Server.Http.{
  Reply, refused, replied, Check, stop, pass, checked, is_id, Answers, open_project,
}
use aifstudio.Server.Http.Owned.{all_answer, open_project-pass}
use aifstudio.Server.Cascade.{
  Storage, BlobWorld, after, after_write, delete_rest, delete_runs, delete_builds,
  handle_delete_project,
}

-- The database without a project and everything that belongs to it.
abbrev pub without_project : String → Db → Db
without_project id db = record db {
  runs = delete_where (run_of_project id) db.runs;
  projects = delete_where (has_key project_key id) db.projects;
  sources = delete_where (has_key source_key id) db.sources;
  turns = delete_where (turn_of id) db.turns;
  builds = delete_where (build_of id) db.builds;
}

delete_where-twice :
    {R : Type 0} (p : R → Bool) (rs : List R)
    → delete_where p (delete_where p rs) ≡ delete_where p rs
unfolding delete_where
delete_where-twice p [] = refl
delete_where-twice p (r ∷ rs) = elim (Bool-cases (p r)) [
  | inl y ↦ rw y (delete_where-twice p rs)
  | inr n ↦ rw (n, delete_where, n) (ap (λ ts. r ∷ ts) (delete_where-twice p rs))
]

-- A part of the handler fails, or succeeds with a database.
abbrev Ends : Db → Storage × Reply Unit → Type 0
Ends db r = (r.1 ≡ refused 500 "internal") ⊎ ((r.0.db ≡ db) × (r.1 ≡ replied 204 tt))

rest_done : String → Db → Db
rest_done id db = record db {
  projects = delete_where (has_key project_key id) db.projects;
  sources = delete_where (has_key source_key id) (delete_where (has_key source_key id) db.sources);
  turns = delete_where (turn_of id) (delete_where (turn_of id) db.turns);
  builds = delete_where (build_of id) db.builds;
}

delete_rest-Ends :
    (a : Answers) (id : String) (s : Storage) → Ends (rest_done id s.db) (delete_rest a id s)
unfolding delete_rest after after_write delete_ai_conversation delete_project_source delete_project
    rest_done
delete_rest-Ends a id s = elim (Bool-cases a.delete_turns) [
  | inr n ↦ inl (rw (delete_rest, n) refl)
  | inl t ↦ elim (Bool-cases a.delete_source) [
    | inr n ↦ inl (rw (delete_rest, t, n) refl)
    | inl u ↦ elim (Bool-cases a.delete_project) [
      | inr n ↦ inl (rw (delete_rest, t, u, n) refl)
      | inl v ↦ inr (rw (delete_rest, t, u, v) refl, rw (delete_rest, t, u, v) refl)
    ]
  ]
]

runs_done : String → Db → Db
runs_done id db = rest_done id (record db { runs = delete_where (run_of_project id) db.runs })

delete_runs-Ends :
    (a : Answers) (w : BlobWorld) (id : String) (s : Storage)
    → Ends (runs_done id s.db) (delete_runs a w id s)
unfolding delete_runs after list_runs_by_project delete_runs_for_project runs_done rest_done
    delete_rest
delete_runs-Ends a w id s = elim (Bool-cases a.list_runs) [
  | inr n ↦ inl (rw (delete_runs, n) refl)
  | inl t ↦ elim (Bool-cases a.delete_runs) [
    | inr n ↦ inl (rw (delete_runs, t, n) refl)
    | inl u ↦ rw (delete_runs, t, u) (delete_rest-Ends a id _)
  ]
]

builds_done : String → Db → Db
builds_done id db = runs_done id (record db { builds = delete_where (build_of id) db.builds })

delete_builds-Ends :
    (a : Answers) (w : BlobWorld) (id : String) (s : Storage)
    → Ends (builds_done id s.db) (delete_builds a w id s)
unfolding delete_builds after list_builds_by_project delete_builds_for_project builds_done runs_done
    delete_runs delete_rest
delete_builds-Ends a w id s = elim (Bool-cases a.list_builds) [
  | inr n ↦ inl (rw (delete_builds, n) refl)
  | inl t ↦ elim (Bool-cases a.delete_builds) [
    | inr n ↦ inl (rw (delete_builds, t, n) refl)
    | inl u ↦ rw (delete_builds, t, u) (delete_runs-Ends a w id _)
  ]
]

builds_done-without : (id : String) (db : Db) → builds_done id db ≡ without_project id db
unfolding builds_done runs_done rest_done
builds_done-without id db = simp (
  delete_where-twice (has_key source_key id) db.sources,
  delete_where-twice (turn_of id) db.turns,
  delete_where-twice (build_of id) db.builds,
)

checked-Ends :
    {A : Type 0} (c : Check A) (s : Storage) (rest : A → Storage × Reply Unit) (db : Db)
    → (checked c s rest).1 ≡ replied 204 tt
    → ((x : A) → Ends db (rest x))
    → (checked c s rest).0.db ≡ db
unfolding checked
checked-Ends (stop status code) s rest db y h = absurd (cc)
checked-Ends (pass x) s rest db y h = elim (h x) [ inl e ↦ absurd (cc) | inr (e, _) ↦ e ]

-- When handleDeleteProject answers 204, the database is the one before without the project and without
-- every source, turn, build and run that belongs to it; everything else is as it was, in its order.
pub handle_delete_project-without :
    (a : Answers) (w : BlobWorld) (has_store : Bool) (user : Option User) (id : String)
    (s : Storage)
    → (handle_delete_project a w has_store user id s).1 ≡ replied 204 tt
    → (handle_delete_project a w has_store user id s).0.db ≡ without_project id s.db
unfolding handle_delete_project
handle_delete_project-without a w has_store user id s y =
    checked-Ends (open_project a has_store user id s.db) s _ (without_project id s.db) y
      (λ _. rw (← builds_done-without id s.db) (delete_builds-Ends a w id s))

delete_builds-done :
    (w : BlobWorld) (id : String) (s : Storage)
    → (delete_builds all_answer w id s).1 ≡ replied 204 tt
unfolding delete_builds delete_runs delete_rest after after_write list_builds_by_project
    delete_builds_for_project list_runs_by_project delete_runs_for_project delete_ai_conversation
    delete_project_source delete_project
delete_builds-done w id s = refl

-- The owner of a project whose id has the right form gets 204 from handleDeleteProject when the
-- database answers each call, whatever happens to the blobs.
pub owner_deletes :
    (w : BlobWorld) (u : User) (id : String) (s : Storage) (p : Project)
    → is_id b'p' id ≡ true
    → find_row project_key id s.db.projects ≡ some p
    → str_eq p.owner_uid u.uid ≡ true
    → (handle_delete_project all_answer w true (some u) id s).1 ≡ replied 204 tt
unfolding handle_delete_project checked
owner_deletes w u id s p i e y =
    rw (handle_delete_project, open_project-pass u id s.db p i e y) (delete_builds-done w id s)
