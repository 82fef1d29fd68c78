-- ===== src/Store/Records.antt =====
-- Turns of the conversation, builds and cached games of SQLiteStore
-- (service/internal/store/sqlite.go).
use aifstudio.Prelude.{
  ℕ, ◌-◌, ◌/◌, ◌*◌, String, Bool, true, false, not, ◌&&◌, ◌||◌, List, [], ◌∷◌, Option, none, some,
  is_some, ltb, str_eq, map, length, if◌then◌else◌,
}
use aifstudio.Text.{Text, text_eq}
use aifstudio.Auth.Tables.{Result, ok, err, store_error, fmt_time}
use aifstudio.Store.Table.{
  select_where, delete_where, update_where, top, desc, asc, find_row, has_key,
}
use aifstudio.Store.Rows.{
  Project, AiTurn, Build, CachedGame, Db, turn_row, scan_turn, build_row, scan_build,
}
use aifstudio.Store.Runs.{clamp}
use aifstudio.Store.Projects.{has_project, set_project, turn_of, build_of}

abbrev pub turn_key : AiTurn → String
turn_key t = t.id

abbrev pub build_key : Build → String
build_key b = b.id

abbrev pub game_key : CachedGame → String
game_key g = g.tuid

-- CreateAITurn
unfoldable pub create_ai_turn : Bool → AiTurn → Db → Db × Bool
create_ai_turn answers t db =
    if not answers || is_some (find_row turn_key t.id db.turns) || not (has_project t.project_id db)
    then (db, false)
    else (record db { turns = turn_row t ∷ db.turns }, true)

-- UpdateProjectAI: one transaction, in which a refused turn undoes the update.
unfoldable pub update_project_ai : Bool → Project → Option AiTurn → Db → Db × Bool
update_project_ai answers p turn db =
    let updated =
      set_project p.id
        (λ q. record q { description = p.description; updated_at = fmt_time p.updated_at }) db in
    if not answers then (db, false) else elim turn [
      | none ↦ (updated, true)
      | some t ↦
          let (db', created) = create_ai_turn true t updated in
          if created then (db', true) else (db, false)
    ]

-- ListAIConversation: the oldest turns first.
unfoldable pub list_ai_conversation : Bool → String → ℕ → Db → Result (List AiTurn)
list_ai_conversation answers pid limit db =
    if answers
    then ok (
        map scan_turn
          (top (turn_of pid) (asc (λ t. t.model_requested_at)) (clamp 1 200 limit) db.turns))
    else err store_error

-- DeleteAIConversation
unfoldable pub delete_ai_conversation : Bool → String → Db → Db × Result ℕ
delete_ai_conversation answers pid db =
    let left = delete_where (turn_of pid) db.turns in
    if answers
    then (record db { turns = left }, ok (length db.turns - length left))
    else (db, err store_error)

-- GetAITurnAfterSource: an empty text is as good as none.
unfoldable pub get_ai_turn_after_source : Bool → String → String → Db → Result (Option Text)
get_ai_turn_after_source answers pid turn_id db =
    if answers
    then ok (elim (find_row turn_key turn_id db.turns) [
      | none ↦ none
      | some t ↦
          if str_eq t.project_id pid && not (text_eq t.source_after [])
          then some t.source_after
          else none
    ])
    else err store_error

-- CreateBuild
unfoldable pub create_build : Bool → Build → Db → Db × Bool
create_build answers b db =
    if not answers
      || is_some (find_row build_key b.id db.builds)
      || not (has_project b.project_id db)
    then (db, false)
    else (record db { builds = build_row b ∷ db.builds }, true)

unfoldable pub scanned : Option Build → Option Build
scanned none = none
scanned (some b) = some (scan_build b)

-- GetBuild
unfoldable pub get_build : Bool → String → Db → Result (Option Build)
get_build answers id db =
    if answers then ok (scanned (find_row build_key id db.builds)) else err store_error

-- UpdateBuild
unfoldable pub update_build : Bool → Build → Db → Db × Bool
update_build answers b db =
    if not answers
      || (is_some (find_row build_key b.id db.builds) && not (has_project b.project_id db))
    then (db, false)
    else (
      record db { builds = update_where (has_key build_key b.id) (λ _. build_row b) db.builds },
      true,
    )

-- ListBuildsByProject
unfoldable pub list_builds_by_project : Bool → String → ℕ → Db → Result (List Build)
list_builds_by_project answers pid limit db =
    if answers
    then ok (
        map scan_build (
          top (build_of pid) (desc (λ b. b.created_at)) (if ltb limit 1 then 1 else limit)
            db.builds))
    else err store_error

-- DeleteBuildsForProject
unfoldable pub delete_builds_for_project : Bool → String → Db → Db × Result ℕ
delete_builds_for_project answers pid db =
    let left = delete_where (build_of pid) db.builds in
    if answers
    then (record db { builds = left }, ok (length db.builds - length left))
    else (db, err store_error)

abbrev pub millisecond : ℕ
millisecond = 1000000

-- A game with the milliseconds of its times, and back.
unfoldable pub game_row : CachedGame → CachedGame
game_row g = record g {
  fetched_at = g.fetched_at / millisecond;
  expires_at = g.expires_at / millisecond;
}

unfoldable pub scan_game : CachedGame → CachedGame
scan_game g = record g {
  fetched_at = g.fetched_at * millisecond;
  expires_at = g.expires_at * millisecond;
}

abbrev pub is_fresh : ℕ → CachedGame → Bool
is_fresh now g = ltb (now / millisecond) g.expires_at

-- GetCachedGame at the time `now`
unfoldable pub get_cached_game : Bool → ℕ → String → Db → Result (Option CachedGame)
get_cached_game answers now tuid db =
    if answers
    then ok (elim (find_row game_key tuid db.games) [
      | none ↦ none
      | some g ↦ if is_fresh now g then some (scan_game g) else none
    ])
    else err store_error

-- PutCachedGame
unfoldable pub put_cached_game : Bool → CachedGame → Db → Db × Bool
put_cached_game answers g db =
    let row = game_row g in
    if answers
    then (
      record db {
        games = elim (find_row game_key g.tuid db.games) [
          | none ↦ row ∷ db.games
          | some _ ↦ update_where (has_key game_key g.tuid) (λ _. row) db.games
        ];
      },
      true,
    )
    else (db, false)

-- ListFreshCachedGames
unfoldable pub list_fresh_cached_games : Bool → ℕ → Db → Result (List CachedGame)
list_fresh_cached_games answers now db =
    if answers then ok (map scan_game (select_where (is_fresh now) db.games)) else err store_error
