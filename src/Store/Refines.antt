-- ===== src/Store/Refines.antt =====
-- Projects and their sources in the store (service/internal/store/sqlite.go) as two maps by id: what a
-- client of the interface in service/internal/store/store.go relies on.
use aifstudio.Prelude.{
  ℕ, ◌≡◌, refl, sym, String, Bool, true, false, List, [], ◌∷◌, none, some, is_some, str_eq,
  str_eq_iff, if◌then◌else◌, Bool-cases, Option-cases, inl, inr,
}
use aifstudio.Text.{Text}
use aifstudio.Auth.Tables.{ok, UserRow, find_id}
use aifstudio.Store.Table.{delete_where, find_row, has_key}
use aifstudio.Store.Table.Keys.{find_row-update_where, find_row-delete_key, find_row-cons}
use aifstudio.Store.Rows.{Project, Source, Db, has_user, project_row}
use aifstudio.Store.Projects.{
  project_key, source_key, has_project, create_project, scanned, get_project, set_project,
  update_project_meta, update_project_latest_build, set_project_published, get_project_source,
  upsert_source, put_project_source, delete_project_source, delete_project,
}
use aifstudio.Store.Maps.{
  Op, create, meta, latest, publish, put, end_source, end_project, step, run, Maps, put_at,
  change_at, apply, replay, source_of, reads, text_or_empty,
}

-- The row of a key after the upsert of a source.
pub upsert_source-found :
    (row : Source) (rows : List Source) (k : String)
    → find_row source_key k (upsert_source row rows)
      ≡ (if str_eq row.project_id k then some row else find_row source_key k rows)
unfolding upsert_source
upsert_source-found row rows k = elim (Option-cases (find_row source_key row.project_id rows)) [
  | inl n ↦ rw (n, upsert_source, find_row-cons source_key row k rows) refl
  | inr (r, y) ↦
      rw
        (
          y,
          upsert_source,
          find_row-update_where source_key (λ _. row) row.project_id
              (λ t e. sym ((str_eq_iff t.project_id row.project_id).0 e)) k rows,
        )
        (elim (Bool-cases (str_eq row.project_id k)) [
          | inl same ↦
              let z : find_row source_key k rows ≡ some r =
                rw (← (str_eq_iff row.project_id k).0 same) y in
              rw (same, z) refl
          | inr other ↦ rw other refl
        ])
]

-- The tables read as the maps.
record Agrees (us : List UserRow) (db : Db) (m : Maps) : Type 0 where
  users : db.accounts.users ≡ us
  projects : (k : String) → find_row project_key k db.projects ≡ m.project k
  sources : (k : String) → source_of (find_row source_key k db.sources) ≡ m.source k

module _ (us : List UserRow) where
  -- Which users exist.
  abbrev pub known : String → Bool
  known uid = is_some (find_id uid us)

  set_project-Agrees :
      (id : String) (f : Project → Project) (db : Db) (m : Maps)
      → ((p : Project) → project_key (f p) ≡ project_key p)
      → Agrees us db m
      → Agrees us (set_project id f db) (change_at id f m)
  unfolding set_project change_at
  set_project-Agrees id f db m keeps a = record {
    users = a.users;
    projects = λ k.
        rw (find_row-update_where project_key f id (λ p _. keeps p) k db.projects, a.projects k);
    sources = a.sources;
  }

  upsert_source-source :
      (pid : String) (s : Text) (rows : List Source) (k : String)
      → source_of
          (find_row source_key k (upsert_source (record { project_id = pid; source = s }) rows))
        ≡ (if str_eq pid k then some s else source_of (find_row source_key k rows))
  unfolding source_of
  upsert_source-source pid s rows k =
      rw (upsert_source-found (record { project_id = pid; source = s }) rows k)
        (elim (Bool-cases (str_eq pid k)) [ inl y ↦ rw y refl | inr y ↦ rw y refl ])

  -- The source under a key after a deletion.
  deleted_source :
      (pid : String) (db : Db) (m : Maps)
      → Agrees us db m
      → (k : String)
      → source_of (find_row source_key k (delete_where (has_key source_key pid) db.sources))
        ≡ put_at pid none m.source k
  unfolding put_at source_of
  deleted_source pid db m a k = elim (Bool-cases (str_eq pid k)) [
    | inl y ↦ rw (find_row-delete_key source_key pid k db.sources, y) refl
    | inr y ↦ rw (find_row-delete_key source_key pid k db.sources, y) (a.sources k)
  ]

  row_added :
      (p : Project) (db : Db) (m : Maps)
      → Agrees us db m
      → (k : String)
      → find_row project_key k (project_row p ∷ db.projects)
        ≡ put_at p.id (some (project_row p)) m.project k
  unfolding put_at project_row
  row_added p db m a k =
      rw (find_row-cons project_key (project_row p) k db.projects, a.projects k) refl

  has_user-known :
      (uid : String) (db : Db) {m : Maps} → Agrees us db m → has_user uid db ≡ known uid
  unfolding has_user
  has_user-known uid db a = rw a.users refl

  has_project-some :
      (pid : String) (db : Db) {m : Maps}
      → Agrees us db m
      → has_project pid db ≡ is_some (m.project pid)
  unfolding has_project
  has_project-some pid db a = rw (a.projects pid) refl

  created-Agrees :
      (p : Project) (db : Db) (m : Maps)
      → Agrees us db m
      → Agrees us (create_project true p db).0 (apply known (create p) m)
  unfolding create_project apply
  created-Agrees p db m a =
      rw (has_project-some p.id db a, has_user-known p.owner_uid db a)
        (elim (Bool-cases (is_some (m.project p.id))) [
          | inl used ↦ rw used a
          | inr free ↦ elim (Bool-cases (known p.owner_uid)) [
            | inr unknown ↦ rw (free, unknown) a
            | inl found ↦
                rw (free, found)
                  (record { users = a.users; projects = row_added p db m a; sources = a.sources })
          ]
        ])

  put-Agrees :
      (pid : String) (s : Text) (t : ℕ) (db : Db) (m : Maps)
      → Agrees us db m
      → Agrees us (put_project_source true pid s t db).0 (apply known (put pid s t) m)
  unfolding put_project_source apply put_at
  put-Agrees pid s t db m a =
      rw (has_project-some pid db a) (elim (Bool-cases (is_some (m.project pid))) [
        | inr unknown ↦ rw unknown a
        | inl found ↦ rw found (
            set_project-Agrees pid _
              (record db {
                sources = upsert_source (record { project_id = pid; source = s }) db.sources;
              })
              (record m { source = put_at pid (some s) m.source }) (λ p. refl)
              (record {
                users = a.users;
                projects = a.projects;
                sources = λ k. rw (upsert_source-source pid s db.sources k, a.sources k) refl;
              }))
      ])

  step-Agrees :
      (o : Op) (db : Db) (m : Maps) → Agrees us db m → Agrees us (step o db) (apply known o m)
  unfolding step apply create_project has_project has_user project_row update_project_meta
      update_project_latest_build set_project_published put_project_source delete_project_source
      delete_project put_at
  step-Agrees (create p) db m a = created-Agrees p db m a
  step-Agrees (meta id n d t) db m a = set_project-Agrees id _ db m (λ p. refl) a
  step-Agrees (latest id b) db m a = set_project-Agrees id _ db m (λ p. refl) a
  step-Agrees (publish id true t) db m a = set_project-Agrees id _ db m (λ p. refl) a
  step-Agrees (publish id false t) db m a = set_project-Agrees id _ db m (λ p. refl) a
  step-Agrees (put pid s t) db m a = put-Agrees pid s t db m a
  step-Agrees (end_source pid) db m a = record {
    users = a.users;
    projects = a.projects;
    sources = deleted_source pid db m a;
  }
  step-Agrees (end_project id) db m a = record {
    users = a.users;
    projects = λ k. elim (Bool-cases (str_eq id k)) [
      | inl y ↦ rw (find_row-delete_key project_key id k db.projects, y) refl
      | inr y ↦ rw (find_row-delete_key project_key id k db.projects, y) (a.projects k)
    ];
    sources = deleted_source id db m a;
  }

  run-Agrees :
      (os : List Op) (db : Db) (m : Maps)
      → Agrees us db m
      → Agrees us (run os db) (replay known os m)
  unfolding run replay
  run-Agrees [] db m a = a
  run-Agrees (o ∷ os) db m a = run-Agrees os (step o db) (apply known o m) (step-Agrees o db m a)

reads-Agrees : (db : Db) → Agrees db.accounts.users db (reads db)
unfolding reads
reads-Agrees db = record { users = refl; projects = λ k. refl; sources = λ k. refl }

read_source :
    (us : List UserRow) (db : Db) (m : Maps) (k : String)
    → Agrees us db m
    → get_project_source true k db ≡ ok (text_or_empty (m.source k))
unfolding get_project_source source_of text_or_empty
read_source us db m k a =
    rw (← a.sources k) (elim (Option-cases (find_row source_key k db.sources)) [
      | inl n ↦ rw n refl
      | inr (s, y) ↦ rw y refl
    ])

-- For every database, every sequence of calls on projects and their sources and every id, GetProject
-- after the calls gives what the two maps hold for the id after the same calls, its times read back,
-- and GetProjectSource gives the source that they hold, or an empty one when they hold none.
pub run_refines :
    (db : Db) (os : List Op) (k : String)
    → (get_project true k (run os db)
        ≡ ok (scanned ((replay (known db.accounts.users) os (reads db)).project k)))
      × (get_project_source true k (run os db)
          ≡ ok (text_or_empty ((replay (known db.accounts.users) os (reads db)).source k)))
unfolding get_project
run_refines db os k =
    let a = run-Agrees db.accounts.users os db (reads db) (reads-Agrees db) in
    (
      rw (a.projects k) refl,
      read_source db.accounts.users (run os db) (replay (known db.accounts.users) os (reads db)) k
          a,
    )
