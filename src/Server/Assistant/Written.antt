-- ===== src/Server/Assistant/Written.antt =====
-- What the writes of a turn leave in the database (service/internal/server/handlers_ai.go and
-- service/internal/store/sqlite.go).
use aifstudio.Prelude.{
  ℕ, String, ◌≡◌, refl, Bool, true, false, not, ◌||◌, some, ◌∷◌, is_some, Bool-cases, inl, inr, ◌⊎◌,
}
use aifstudio.Text.{Text}
use aifstudio.Auth.Tables.{fmt_time}
use aifstudio.Store.Table.{find_row}
use aifstudio.Store.Rows.{Project, AiTurn, Db, turn_row}
use aifstudio.Store.Projects.{has_project, set_project, upsert_source, put_project_source}
use aifstudio.Store.Records.{turn_key, create_ai_turn, update_project_ai}

pub create_ai_turn-sources :
    (a : Bool) (t : AiTurn) (db : Db) → (create_ai_turn a t db).0.sources ≡ db.sources
unfolding create_ai_turn
create_ai_turn-sources a t db =
    elim (Bool-cases
      (not a || is_some (find_row turn_key t.id db.turns) || not (has_project t.project_id db))) [
        | inl y ↦ rw (create_ai_turn, y) refl
        | inr n ↦ rw (create_ai_turn, n) refl
      ]

pub put_project_source-cases :
    (a : Bool) (pid : String) (s : Text) (now : ℕ) (db : Db)
    → (put_project_source a pid s now db ≡ (db, false))
      ⊎ (((put_project_source a pid s now db).1 ≡ true)
          × ((put_project_source a pid s now db).0.sources
              ≡ upsert_source (record { project_id = pid; source = s }) db.sources)
          × ((put_project_source a pid s now db).0.turns ≡ db.turns))
unfolding put_project_source set_project
put_project_source-cases a pid s now db = elim (Bool-cases (not a || not (has_project pid db))) [
  | inl y ↦ inl (rw (put_project_source, y) refl)
  | inr n ↦ inr (
    rw (put_project_source, n) refl,
    rw (put_project_source, n) refl,
    rw (put_project_source, n) refl,
  )
]

pub create_ai_turn-cases :
    (a : Bool) (t : AiTurn) (db : Db)
    → (create_ai_turn a t db ≡ (db, false))
      ⊎ (create_ai_turn a t db ≡ (record db { turns = turn_row t ∷ db.turns }, true))
unfolding create_ai_turn
create_ai_turn-cases a t db =
    elim (Bool-cases
      (not a || is_some (find_row turn_key t.id db.turns) || not (has_project t.project_id db))) [
        | inl y ↦ inl (rw (create_ai_turn, y) refl)
        | inr n ↦ inr (rw (create_ai_turn, n) refl)
      ]

-- UpdateProjectAI with a turn writes nothing, or the turn beside the project, and never a source.
pub update_project_ai-cases :
    (a : Bool) (p : Project) (t : AiTurn) (db : Db)
    → (update_project_ai a p (some t) db ≡ (db, false))
      ⊎ (((update_project_ai a p (some t) db).1 ≡ true)
          × ((update_project_ai a p (some t) db).0.sources ≡ db.sources)
          × ((update_project_ai a p (some t) db).0.turns ≡ turn_row t ∷ db.turns))
unfolding update_project_ai set_project
update_project_ai-cases false p t db = inl refl
update_project_ai-cases true p t db =
    elim (create_ai_turn-cases true t (
      set_project p.id
        (λ q. record q { description = p.description; updated_at = fmt_time p.updated_at }) db)) [
          | inl n ↦ inl (rw (update_project_ai, n) refl)
          | inr y ↦ inr (
            rw (update_project_ai, y) refl,
            rw (update_project_ai, y) refl,
            rw (update_project_ai, y) refl,
          )
        ]
