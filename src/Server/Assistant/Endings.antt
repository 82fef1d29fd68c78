-- ===== src/Server/Assistant/Endings.antt =====
-- How the streams of the assistant end (service/internal/server/handlers_ai.go), and what the database
-- then holds.
use aifstudio.Prelude.{
  ℕ, String, ◌≡◌, refl, Option, some, List, [], ◌∷◌, ◌++◌, All, All-concat, str_eq_refl, ltb,
  Bool-cases, Option-cases, inl, inr,
}
use aifstudio.Text.{Text}
use aifstudio.Auth.Handlers.{byte_length}
use aifstudio.Store.Table.{find_row}
use aifstudio.Store.Table.Keys.{find_row-cons}
use aifstudio.Store.Rows.{Project, AiTurn, Db, turn_row}
use aifstudio.Store.Projects.{source_key, put_project_source}
use aifstudio.Store.Records.{turn_key}
use aifstudio.Store.Refines.{upsert_source-found}
use aifstudio.Openai.Stream.{Chunk}
use aifstudio.Openai.Fence.{extract_fenced_inform7}
use aifstudio.Server.Http.{Answers}
use aifstudio.Server.Assistant.{
  Event, delta, failure, source, done, AiWorld, Streamed, unstreamed, consume, with_delta,
  with_tokens, write_failed, write_turn, extract_description_block, finish_generate,
  generate_events,
}
use aifstudio.Server.Assistant.Chat.{write_answer, finish_chat, chat_events}
use aifstudio.Server.Assistant.Written.{
  create_ai_turn-sources, put_project_source-cases, update_project_ai-cases,
}

abbrev pub IsDelta : Event → Type 0
IsDelta e = (d : Text) × (e ≡ delta d)

-- The end of a stream, of a handler that takes the database from `db` to `db'`: a failure, a failure to
-- save the turn after its source has been written, an answer without a source, or a new source with its
-- turn.
pub data Ending (pid : String) (db db' : Db) : List Event → Type 0 where
  failed : (code : String) → db'.sources ≡ db.sources → Ending pid db db' (failure code ∷ [])
  unsaved :
      (s : Text)
      → find_row source_key pid db'.sources ≡ some (record { project_id = pid; source = s })
      → db'.turns ≡ db.turns
      → Ending pid db db' (failure "internal" ∷ [])
  answer :
      (reply : Text) (m n : ℕ) → db'.sources ≡ db.sources → Ending pid db db' (done reply m n ∷ [])
  change :
      (s reply : Text) (m n : ℕ) (t : AiTurn)
      → find_row source_key pid db'.sources ≡ some (record { project_id = pid; source = s })
      → find_row turn_key t.id db'.turns ≡ some (turn_row t)
      → t.source_after ≡ s
      → Ending pid db db' (source s ∷ done reply m n ∷ [])

-- The events of consume are deltas.
with_delta-IsDelta :
    (d : Text) (s : Streamed) → All IsDelta s.events → All IsDelta (with_delta d s).events
unfolding with_delta
with_delta-IsDelta [] s h = h
with_delta-IsDelta (c ∷ d) s h = All-concat IsDelta s.events h (c ∷ d, refl)

with_tokens-events : (c : Chunk) (s : Streamed) → (with_tokens c s).events ≡ s.events
unfolding with_tokens
with_tokens-events c s = elim (Bool-cases c.done) [
  | inl y ↦ rw (with_tokens, y) refl
  | inr n ↦ rw (with_tokens, n) refl
]

consume-IsDelta :
    (cs : List Chunk) (s : Streamed) → All IsDelta s.events → All IsDelta (consume cs s).events
unfolding consume
consume-IsDelta [] s h = h
consume-IsDelta (c ∷ cs) s h = elim (Bool-cases c.is_error) [
  | inl y ↦ rw (consume, y) h
  | inr n ↦
      rw (consume, n)
        (consume-IsDelta cs (with_tokens c (with_delta c.delta s))
          (rw (with_tokens-events c (with_delta c.delta s)) (with_delta-IsDelta c.delta s h)))
]

turn_id : (t : AiTurn) → (turn_row t).id ≡ t.id
unfolding turn_row
turn_id t = refl

-- The end of a turn that succeeds, of a turn for the project.
write_turn-Ending :
    (a : Answers) (p : Project) (t : AiTurn) (s : Text) (finished : ℕ) (db : Db)
    → t.source_after ≡ s
    → Ending p.id db (write_turn a p t s finished db).0 (write_turn a p t s finished db).1
unfolding write_turn
write_turn-Ending a p t s finished db same =
    elim (put_project_source-cases a.put_source p.id s finished db) [
      | inl n ↦ rw (write_turn, n) (failed "gcs_upload_failed" refl)
      | inr (y, put, others) ↦
          let db1 = (put_project_source a.put_source p.id s finished db).0 in
          let found : find_row source_key p.id db1.sources
              ≡ some (record { project_id = p.id; source = s }) =
            rw
              (
                put,
                upsert_source-found (record { project_id = p.id; source = s }) db.sources p.id,
                str_eq_refl p.id,
              )
              refl in
          elim (update_project_ai-cases a.update_ai p t db1) [
            | inl n ↦ rw (write_turn, y, n) (unsaved s found others)
            | inr (z, kept, turns) ↦
                rw (write_turn, y, z)
                  (change s t.assistant_reply t.prompt_tokens t.completion_tokens t (rw kept found)
                    (rw
                      (
                        turns,
                        find_row-cons turn_key (turn_row t) t.id db1.turns,
                        turn_id t,
                        str_eq_refl t.id,
                      )
                      refl)
                    same)
          ]
    ]

write_failed-sources :
    (a : Answers) (t : AiTurn) (m r b : Text) (db : Db)
    → (write_failed a t m r b db).sources ≡ db.sources
unfolding write_failed
write_failed-sources a t m r b db = create_ai_turn-sources a.create_turn _ db

write_answer-Ending :
    (a : Answers) (w : AiWorld) (t : AiTurn) (raw before : Text) (pid : String) (db : Db)
    → Ending pid db (write_answer a w t raw before db).0 (write_answer a w t raw before db).1
unfolding write_answer
write_answer-Ending a w t raw before pid db =
    answer raw t.prompt_tokens t.completion_tokens (create_ai_turn-sources a.create_turn _ db)

finish_generate-Ending :
    (block : Text → Option (Text × Text)) (a : Answers) (w : AiWorld) (p : Project) (t : AiTurn)
    (d before : Text) (s : Streamed) (db : Db)
    → Ending p.id db
        (finish_generate block a w p t d before s db).0
        (finish_generate block a w p t d before s db).1
unfolding finish_generate
finish_generate-Ending block a w p t d before s db =
    let raw = (extract_description_block block s.reply).1 in
    elim (Bool-cases (extract_fenced_inform7 raw).1) [
      | inr n ↦
          rw (finish_generate, n) (failed "no_fence" (write_failed-sources a t _ raw before db))
      | inl y ↦ elim (Bool-cases (ltb 500000 (byte_length (extract_fenced_inform7 raw).0.0))) [
        | inl big ↦ rw (finish_generate, y, big) (failed "source_too_large" refl)
        | inr small ↦
            rw (finish_generate, y, small)
              (write_turn-Ending a _ _ (extract_fenced_inform7 raw).0.0 w.finished db refl)
      ]
    ]

finish_chat-Ending :
    (a : Answers) (w : AiWorld) (p : Project) (t : AiTurn) (before : Text) (s : Streamed) (db : Db)
    → Ending p.id db (finish_chat a w p t before s db).0 (finish_chat a w p t before s db).1
unfolding finish_chat
finish_chat-Ending a w p t before s db = elim (Bool-cases (extract_fenced_inform7 s.reply).1) [
  | inr n ↦ rw (finish_chat, n) (write_answer-Ending a w t s.reply before p.id db)
  | inl y ↦ elim (Bool-cases (ltb 500000 (byte_length (extract_fenced_inform7 s.reply).0.0))) [
    | inl big ↦ rw (finish_chat, y, big) (failed "source_too_large" refl)
    | inr small ↦
        rw (finish_chat, y, small)
          (write_turn-Ending a _ _ (extract_fenced_inform7 s.reply).0.0 w.finished db refl)
  ]
]

-- A stream of deltas with an ending.
pub record IsStream (pid : String) (db db' : Db) (events : List Event) : Type 0 where
  pub deltas : List Event
  pub streamed : All IsDelta deltas
  pub tail : List Event
  pub whole : events ≡ deltas ++ tail
  pub ending : Ending pid db db' tail

alone :
    (pid : String) (db db' : Db) (tail : List Event)
    → Ending pid db db' tail
    → IsStream pid db db' tail
alone pid db db' tail e = record {
  deltas = [];
  streamed = tt;
  tail = tail;
  whole = refl;
  ending = e;
}

streams :
    (cs : List Chunk) (pid : String) (db db' : Db) (tail : List Event)
    → Ending pid db db' tail
    → IsStream pid db db' ((consume cs unstreamed).events ++ tail)
streams cs pid db db' tail e = record {
  deltas = (consume cs unstreamed).events;
  streamed = consume-IsDelta cs unstreamed tt;
  tail = tail;
  whole = refl;
  ending = e;
}

pub generate_events-IsStream :
    (block : Text → Option (Text × Text)) (a : Answers) (w : AiWorld) (p : Project) (t : AiTurn)
    (d before : Text) (db : Db)
    → IsStream p.id db
        (generate_events block a w p t d before db).0
        (generate_events block a w p t d before db).1
unfolding generate_events
generate_events-IsStream block a w p t d before db = elim (Option-cases w.chunks) [
  | inl n ↦
      rw (generate_events, n)
        (alone p.id db _ _
          (failed "openai_upstream" (write_failed-sources a t w.error_text [] before db)))
  | inr (cs, e) ↦ elim (Bool-cases (consume cs unstreamed).is_error) [
    | inl y ↦
        rw (generate_events, e, y)
          (streams cs p.id db _ _
            (failed "openai_upstream" (write_failed-sources a _ w.error_text [] before db)))
    | inr n ↦
        rw (generate_events, e, n)
          (streams cs p.id db _ _ (finish_generate-Ending block a w p _ d before _ db))
  ]
]

pub chat_events-IsStream :
    (a : Answers) (w : AiWorld) (p : Project) (t : AiTurn) (before : Text) (db : Db)
    → IsStream p.id db (chat_events a w p t before db).0 (chat_events a w p t before db).1
unfolding chat_events
chat_events-IsStream a w p t before db = elim (Option-cases w.chunks) [
  | inl n ↦
      rw (chat_events, n)
        (alone p.id db _ _
          (failed "openai_upstream" (write_failed-sources a t w.error_text [] before db)))
  | inr (cs, e) ↦ elim (Bool-cases (consume cs unstreamed).is_error) [
    | inl y ↦
        rw (chat_events, e, y)
          (streams cs p.id db _ _
            (failed "openai_upstream" (write_failed-sources a _ w.error_text [] before db)))
    | inr n ↦
        rw (chat_events, e, n) (streams cs p.id db _ _ (finish_chat-Ending a w p _ before _ db))
  ]
]
