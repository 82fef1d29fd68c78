-- ===== src/Store/Integrity/Steps.antt =====
-- Each call that writes keeps the constraints of the schema (service/internal/store/sqlite.go).
use aifstudio.Prelude.{
  ◌≡◌, String, Bool, true, false, List, [], ◌∷◌, arith, All, All-map, is_some, str_eq, str_eq_iff,
  Bool-cases, inl, inr,
}
use aifstudio.Auth.Tables.{find_id}
use aifstudio.Store.Table.{delete_where, update_where, find_row, has_key}
use aifstudio.Store.Table.Keys.{
  Once-cons, Once-delete_where, Once-update_where, find_row-update_where, find_row-delete_key,
  All-delete_where, All-update_where,
}
use aifstudio.Store.Rows.{Project, Db, has_user, project_row}
use aifstudio.Store.Projects.{
  project_key, source_key, has_project, set_project, create_project, delete_project,
}
use aifstudio.Store.Records.{turn_key, build_key}
use aifstudio.Store.Integrity.{UserIn, ProjectIn, IsDb}

ProjectIn-cons :
    (p : Project) (ps : List Project) (k : String) → ProjectIn ps k → ProjectIn (p ∷ ps) k
unfolding find_row
ProjectIn-cons p ps k h = ground arith

ProjectIn-update :
    (f : Project → Project)
    → ((p : Project) → project_key (f p) ≡ project_key p)
    → (id : String) (ps : List Project) (k : String) → ProjectIn ps k
    → ProjectIn (update_where (has_key project_key id) f ps) k
ProjectIn-update f keeps id ps k h =
    rw (find_row-update_where project_key f id (λ p _. keeps p) k ps) (ground arith)

-- Rows that refer to projects, when the projects of a deleted one go with it.
Refs-deleted :
    {C : Type 0} (pid : C → String) (id : String) (ps : List Project) (cs : List C)
    → All (λ c. ProjectIn ps (pid c)) cs
    → All
        (λ c. ProjectIn (delete_where (has_key project_key id) ps) (pid c))
        (delete_where (λ c. str_eq (pid c) id) cs)
unfolding delete_where
Refs-deleted pid id ps [] h = tt
Refs-deleted pid id ps (c ∷ cs) (q, h) = elim (Bool-cases (str_eq (pid c) id)) [
  | inl y ↦ rw y (Refs-deleted pid id ps cs h)
  | inr n ↦ rw n (
    rw (find_row-delete_key project_key id (pid c) ps)
        (ground (arith, str_eq_iff (pid c) id, str_eq_iff id (pid c))),
    Refs-deleted pid id ps cs h,
  )
]

-- A change of one project that keeps its id and its owner.
pub set_project-IsDb :
    (id : String) (f : Project → Project) (db : Db)
    → ((p : Project) → project_key (f p) ≡ project_key p)
    → ((p : Project) → (f p).owner_uid ≡ p.owner_uid)
    → IsDb db
    → IsDb (set_project id f db)
unfolding set_project
set_project-IsDb id f db keeps owner i =
    let kept = ProjectIn-update f keeps id db.projects in
    record {
      runs_once = i.runs_once;
      runs_owned = i.runs_owned;
      projects_once =
          Once-update_where project_key (has_key project_key id) f (λ p _. keeps p) db.projects
            i.projects_once;
      projects_owned =
          All-update_where (λ p. UserIn db.accounts.users p.owner_uid) (has_key project_key id) f
            (λ p q _. rw (owner p) q) db.projects i.projects_owned;
      sources_once = i.sources_once;
      sources_of = All-map _ _ (λ s q. kept s.project_id q) db.sources i.sources_of;
      turns_once = i.turns_once;
      turns_of = All-map _ _ (λ t q. kept t.project_id q) db.turns i.turns_of;
      builds_once = i.builds_once;
      builds_of = All-map _ _ (λ b q. kept b.project_id q) db.builds i.builds_of;
      games_once = i.games_once;
    }

pub delete_project-IsDb :
    (a : Bool) (id : String) (db : Db) → IsDb db → IsDb (delete_project a id db).0
unfolding delete_project has_key
delete_project-IsDb false id db i = i
delete_project-IsDb true id db i = record {
  runs_once = i.runs_once;
  runs_owned = i.runs_owned;
  projects_once =
      Once-delete_where project_key (has_key project_key id) db.projects i.projects_once;
  projects_owned = All-delete_where _ (has_key project_key id) db.projects i.projects_owned;
  sources_once = Once-delete_where source_key (has_key source_key id) db.sources i.sources_once;
  sources_of = Refs-deleted (λ s. s.project_id) id db.projects db.sources i.sources_of;
  turns_once = Once-delete_where turn_key _ db.turns i.turns_once;
  turns_of = Refs-deleted (λ t. t.project_id) id db.projects db.turns i.turns_of;
  builds_once = Once-delete_where build_key _ db.builds i.builds_once;
  builds_of = Refs-deleted (λ b. b.project_id) id db.projects db.builds i.builds_of;
  games_once = i.games_once;
}

pub create_project-IsDb :
    (a : Bool) (p : Project) (db : Db) → IsDb db → IsDb (create_project a p db).0
unfolding create_project has_project has_user project_row
create_project-IsDb false p db i = i
create_project-IsDb true p db i =
    elim (Bool-cases (is_some (find_row project_key p.id db.projects))) [
      | inl used ↦ rw used i
      | inr free ↦ elim (Bool-cases (is_some (find_id p.owner_uid db.accounts.users))) [
        | inr unknown ↦ rw (free, unknown) i
        | inl known ↦
            let kept = ProjectIn-cons (project_row p) db.projects in
            rw (free, known)
              (record {
                runs_once = i.runs_once;
                runs_owned = i.runs_owned;
                projects_once =
                    Once-cons project_key (project_row p) db.projects free i.projects_once;
                projects_owned = (known, i.projects_owned);
                sources_once = i.sources_once;
                sources_of = All-map _ _ (λ s q. kept s.project_id q) db.sources i.sources_of;
                turns_once = i.turns_once;
                turns_of = All-map _ _ (λ t q. kept t.project_id q) db.turns i.turns_of;
                builds_once = i.builds_once;
                builds_of = All-map _ _ (λ b q. kept b.project_id q) db.builds i.builds_of;
                games_once = i.games_once;
              })
      ]
    ]
