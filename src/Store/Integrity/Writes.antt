-- ===== src/Store/Integrity/Writes.antt =====
-- The calls that write to one table keep the constraints of the schema
-- (service/internal/store/sqlite.go).
use aifstudio.Prelude.{
  ℕ, ◌≡◌, refl, sym, String, Bool, true, false, List, [], ◌∷◌, Option, none, some, arith, All,
  is_some, str_eq_iff, Bool-cases, Option-cases, inl, inr,
}
use aifstudio.Text.{Text}
use aifstudio.Auth.Tables.{find_id, fmt_time}
use aifstudio.Store.Table.{update_where, find_row, has_key}
use aifstudio.Store.Table.Keys.{Once, Once-cons, Once-update_where, All-update_where}
use aifstudio.Store.Rows.{
  Run, Project, Source, AiTurn, Build, CachedGame, Db, has_user, run_row, turn_row, build_row,
}
use aifstudio.Store.Runs.{run_key, create_run, update_run}
use aifstudio.Store.Projects.{
  project_key, source_key, has_project, set_project, upsert_source, put_project_source,
}
use aifstudio.Store.Records.{
  turn_key, build_key, game_key, create_ai_turn, update_project_ai, create_build, update_build,
  put_cached_game, game_row,
}
use aifstudio.Store.Integrity.{IsDb}
use aifstudio.Store.Integrity.Steps.{set_project-IsDb}
use aifstudio.Store.Integrity.Replaced.{
  with_runs, with_sources, with_turns, with_builds, with_games,
}

pub create_run-IsDb : (a : Bool) (r : Run) (db : Db) → IsDb db → IsDb (create_run a r db).0
unfolding create_run has_user run_row
create_run-IsDb false r db i = i
create_run-IsDb true r db i = elim (Bool-cases (is_some (find_row run_key r.id db.runs))) [
  | inl used ↦ rw used i
  | inr free ↦ elim (Bool-cases (is_some (find_id r.user_id db.accounts.users))) [
    | inr unknown ↦ rw (free, unknown) i
    | inl known ↦
        rw (free, known)
          (with_runs (run_row r ∷ db.runs) i
            (Once-cons run_key (run_row r) db.runs free i.runs_once) (known, i.runs_owned))
  ]
]

create_turn-IsDb : (t : AiTurn) (db : Db) → IsDb db → IsDb (create_ai_turn true t db).0
unfolding create_ai_turn has_project turn_row
create_turn-IsDb t db i = elim (Bool-cases (is_some (find_row turn_key t.id db.turns))) [
  | inl used ↦ rw used i
  | inr free ↦ elim (Bool-cases (is_some (find_row project_key t.project_id db.projects))) [
    | inr unknown ↦ rw (free, unknown) i
    | inl known ↦
        rw (free, known)
          (with_turns (turn_row t ∷ db.turns) i
            (Once-cons turn_key (turn_row t) db.turns free i.turns_once) (known, i.turns_of))
  ]
]

pub create_ai_turn-IsDb :
    (a : Bool) (t : AiTurn) (db : Db) → IsDb db → IsDb (create_ai_turn a t db).0
unfolding create_ai_turn
create_ai_turn-IsDb false t db i = i
create_ai_turn-IsDb true t db i = create_turn-IsDb t db i

pub update_project_ai-IsDb :
    (a : Bool) (p : Project) (t : Option AiTurn) (db : Db)
    → IsDb db
    → IsDb (update_project_ai a p t db).0
unfolding update_project_ai
update_project_ai-IsDb false p t db i = i
update_project_ai-IsDb true p none db i = set_project-IsDb p.id _ db (λ q. refl) (λ q. refl) i
update_project_ai-IsDb true p (some t) db i =
    let updated =
      set_project p.id
        (λ q. record q { description = p.description; updated_at = fmt_time p.updated_at }) db in
    elim (Bool-cases (create_ai_turn true t updated).1) [
      | inl done ↦ rw (done) (
          create_ai_turn-IsDb true t updated (set_project-IsDb p.id _ db (λ q. refl) (λ q. refl) i))
      | inr refused ↦ rw refused i
    ]

pub create_build-IsDb : (a : Bool) (b : Build) (db : Db) → IsDb db → IsDb (create_build a b db).0
unfolding create_build has_project build_row
create_build-IsDb false b db i = i
create_build-IsDb true b db i = elim (Bool-cases (is_some (find_row build_key b.id db.builds))) [
  | inl used ↦ rw used i
  | inr free ↦ elim (Bool-cases (is_some (find_row project_key b.project_id db.projects))) [
    | inr unknown ↦ rw (free, unknown) i
    | inl known ↦
        rw (free, known)
          (with_builds (build_row b ∷ db.builds) i
            (Once-cons build_key (build_row b) db.builds free i.builds_once) (known, i.builds_of))
  ]
]

-- Rows with an absent key are left alone.
update_absent :
    {R : Type 0} (key : R → String) (k : String) (f : R → R) (rs : List R)
    → is_some (find_row key k rs) ≡ false
    → update_where (has_key key k) f rs ≡ rs
unfolding update_where has_key find_row
update_absent key k f [] e = refl
update_absent key k f (r ∷ rs) e = ground (arith, update_absent key k f rs)

pub update_run-IsDb : (a : Bool) (r : Run) (db : Db) → IsDb db → IsDb (update_run a r db).0
unfolding update_run has_user run_row has_key
update_run-IsDb false r db i = i
update_run-IsDb true r db i = elim (Bool-cases (is_some (find_row run_key r.id db.runs))) [
  | inr absent ↦ rw (absent, update_absent run_key r.id (λ _. run_row r) db.runs absent) i
  | inl there ↦ elim (Bool-cases (is_some (find_id r.user_id db.accounts.users))) [
    | inr unknown ↦ rw (there, unknown) i
    | inl known ↦
        rw (there, known)
          (with_runs (update_where (has_key run_key r.id) (λ _. run_row r) db.runs) i
            (Once-update_where run_key (has_key run_key r.id) (λ _. run_row r)
              (λ s y. sym ((str_eq_iff s.id r.id).0 y)) db.runs i.runs_once)
            (All-update_where _ (has_key run_key r.id) (λ _. run_row r) (λ s q y. known) db.runs
              i.runs_owned))
  ]
]

pub update_build-IsDb : (a : Bool) (b : Build) (db : Db) → IsDb db → IsDb (update_build a b db).0
unfolding update_build has_project build_row has_key
update_build-IsDb false b db i = i
update_build-IsDb true b db i = elim (Bool-cases (is_some (find_row build_key b.id db.builds))) [
  | inr absent ↦ rw (absent, update_absent build_key b.id (λ _. build_row b) db.builds absent) i
  | inl there ↦ elim (Bool-cases (is_some (find_row project_key b.project_id db.projects))) [
    | inr unknown ↦ rw (there, unknown) i
    | inl known ↦
        rw (there, known)
          (with_builds (update_where (has_key build_key b.id) (λ _. build_row b) db.builds) i
            (Once-update_where build_key (has_key build_key b.id) (λ _. build_row b)
              (λ s y. sym ((str_eq_iff s.id b.id).0 y)) db.builds i.builds_once)
            (All-update_where _ (has_key build_key b.id) (λ _. build_row b) (λ s q y. known)
              db.builds i.builds_of))
  ]
]

upsert_source-Once :
    (s : Source) (rows : List Source)
    → Once source_key rows
    → Once source_key (upsert_source s rows)
unfolding upsert_source has_key
upsert_source-Once s rows o = elim (Option-cases (find_row source_key s.project_id rows)) [
  | inl n ↦ rw (n, upsert_source) (n, o)
  | inr (r, y) ↦
      rw (y, upsert_source)
        (Once-update_where source_key (has_key source_key s.project_id) (λ _. s)
          (λ t e. sym ((str_eq_iff t.project_id s.project_id).0 e)) rows o)
]

upsert_source-All :
    (P : Source → Type 0) (s : Source) (rows : List Source)
    → P s
    → All P rows
    → All P (upsert_source s rows)
unfolding upsert_source
upsert_source-All P s rows q h = elim (Option-cases (find_row source_key s.project_id rows)) [
  | inl n ↦ rw (n, upsert_source) (q, h)
  | inr (r, y) ↦
      rw (y, upsert_source)
        (All-update_where P (has_key source_key s.project_id) (λ _. s) (λ t e f. q) rows h)
]

pub put_project_source-IsDb :
    (a : Bool) (pid : String) (source : Text) (t : ℕ) (db : Db)
    → IsDb db
    → IsDb (put_project_source a pid source t db).0
unfolding put_project_source has_project
put_project_source-IsDb false pid source t db i = i
put_project_source-IsDb true pid source t db i =
    elim (Bool-cases (is_some (find_row project_key pid db.projects))) [
      | inr unknown ↦ rw unknown i
      | inl known ↦
          let row : Source = record { project_id = pid; source = source } in
          rw known (
            set_project-IsDb pid _ (record db { sources = upsert_source row db.sources })
              (λ q. refl) (λ q. refl)
              (with_sources (upsert_source row db.sources) i
                (upsert_source-Once row db.sources i.sources_once)
                (upsert_source-All _ row db.sources known i.sources_of)))
    ]

pub put_cached_game-IsDb :
    (a : Bool) (g : CachedGame) (db : Db) → IsDb db → IsDb (put_cached_game a g db).0
unfolding put_cached_game game_row has_key
put_cached_game-IsDb false g db i = i
put_cached_game-IsDb true g db i = elim (Option-cases (find_row game_key g.tuid db.games)) [
  | inl n ↦ rw (n, put_cached_game) (with_games (game_row g ∷ db.games) i (n, i.games_once))
  | inr (r, y) ↦
      rw (y, put_cached_game)
        (with_games (update_where (has_key game_key g.tuid) (λ _. game_row g) db.games) i (
          Once-update_where game_key (has_key game_key g.tuid) (λ _. game_row g)
            (λ t e. sym ((str_eq_iff t.tuid g.tuid).0 e)) db.games i.games_once))
]
