-- ===== src/Server/Assistant/Streams.antt =====
-- The streams that the two handlers of the assistant send (service/internal/server/handlers_ai.go).
use aifstudio.Prelude.{
  String, ◌≡◌, refl, sym, ap, ◌∙◌, subst, Option, List, ◌∷◌, Bool-cases, inl, inr,
}
use aifstudio.Text.{Text, trim_space}
use aifstudio.Auth.Tables.{User}
use aifstudio.Store.Table.Keys.{find_row_key}
use aifstudio.Store.Rows.{Project, Db, scan_project}
use aifstudio.Store.Projects.{project_key}
use aifstudio.Server.Http.{
  Reply, refused, replied, pass, signed_in, require, is_id, Answers, own_project,
}
use aifstudio.Server.Http.Passed.{pass_eq, and_then-passed, checked-replied, own_project-passed}
use aifstudio.Server.Projects.{decoded}
use aifstudio.Server.Assistant.{
  Event, start, AiConfig, AiWorld, fresh_project, valid_description, available, read_source,
  open_generate, handle_ai_generate, or_else, new_turn, user_message, start_stream, generate_events,
}
use aifstudio.Server.Assistant.Chat.{
  ChatStart, valid_message, conversation, open_chat, handle_ai_chat, chat_events,
}
use aifstudio.Server.Assistant.Endings.{IsStream, generate_events-IsStream, chat_events-IsStream}

-- A project that passes the check has the id of the request.
own_id :
    (a : Answers) (uid id : String) (db : Db) (q : Project)
    → own_project a uid id db ≡ pass q
    → q.id ≡ id
unfolding scan_project
own_id a uid id db q e =
    let (p, found, _, same) = own_project-passed a uid id db q e in
    ap (λ x. x.id) (sym same) ∙ find_row_key project_key id db.projects found

open_generate-id :
    (a : Answers) (cfg : AiConfig) (user : Option User) (id : String) (body : Option Text) (db : Db)
    (x : User × Project × Text × Text)
    → open_generate a cfg user id body db ≡ pass x
    → x.1.id ≡ id
unfolding open_generate
open_generate-id a cfg user id body db x e =
    let (u, _, e1) = and_then-passed (signed_in user) _ x e in
    let (_, _, e2) = and_then-passed (require (is_id b'p' id) 400 "invalid_id") _ x e1 in
    let (sent, _, e3) = and_then-passed (decoded body) _ x e2 in
    let (q, owned, e4) = and_then-passed (own_project a u.uid id db) _ x e3 in
    let (_, _, e5) = and_then-passed (fresh_project a id db) _ x e4 in
    let (_, _, e6) =
      and_then-passed (valid_description cfg (or_else (trim_space sent) q.description)) _ x e5 in
    let (_, _, e7) = and_then-passed (available cfg) _ x e6 in
    let (before, _, e8) = and_then-passed (read_source a id db) _ x e7 in
    sym (ap (λ y. y.1.id) (pass_eq e8)) ∙ own_id a u.uid id db q owned

open_chat-id :
    (a : Answers) (cfg : AiConfig) (user : Option User) (id : String) (body : Option Text) (db : Db)
    (c : ChatStart)
    → open_chat a cfg user id body db ≡ pass c
    → c.project.id ≡ id
unfolding open_chat
open_chat-id a cfg user id body db c e =
    let (u, _, e1) = and_then-passed (signed_in user) _ c e in
    let (_, _, e2) = and_then-passed (require (is_id b'p' id) 400 "invalid_id") _ c e1 in
    let (sent, _, e3) = and_then-passed (decoded body) _ c e2 in
    let (_, _, e4) = and_then-passed (valid_message cfg (trim_space sent)) _ c e3 in
    let (q, owned, e5) = and_then-passed (own_project a u.uid id db) _ c e4 in
    let (_, _, e6) = and_then-passed (available cfg) _ c e5 in
    let (turns, _, e7) = and_then-passed (conversation a cfg id db) _ c e6 in
    let (before, _, e8) = and_then-passed (read_source a id db) _ c e7 in
    sym (ap (λ y. y.project.id) (pass_eq e8)) ∙ own_id a u.uid id db q owned

-- What a handler replies: a start, then a stream for the project of the request.
abbrev pub Streams : String → AiWorld → Db → Db × Reply (List Event) → Type 0
Streams id w db r =
    (before : Text) × (events : List Event) × (r.1 ≡ replied 200 (start w.turn_id before ∷ events))
    × IsStream id db r.0 events

start_stream-Streams :
    (id : String) (w : AiWorld) (before : Text) (r : Db × List Event) (db : Db)
    (events : List Event)
    → IsStream id db r.0 r.1
    → (start_stream w before r db).1 ≡ replied 200 events
    → Streams id w db (start_stream w before r db)
unfolding start_stream
start_stream-Streams id w before r db events s e = elim (Bool-cases w.flushes) [
  | inr n ↦
      let z : (start_stream w before r db).1 ≡ refused 500 "no_flusher" =
        rw (start_stream, n) refl in
      absurd (cc)
  | inl y ↦ rw (start_stream, y) (before, r.1, refl, s)
]

-- When handleAIGenerate answers 200, whatever the store and the model do, it sends a start, then
-- deltas, then one ending: a failure, after which every source is as before, except that a failure to
-- save the turn may leave the database with a new source for the project and no new turn; a done alone,
-- after which every source is as before; or the new source and a done, after which the database holds
-- exactly that source for the project and the turn with it.
pub handle_ai_generate-Streams :
    (block : Text → Option (Text × Text)) (a : Answers) (cfg : AiConfig) (w : AiWorld)
    (user : Option User) (id : String) (body : Option Text) (db : Db) (events : List Event)
    → (handle_ai_generate block a cfg w user id body db).1 ≡ replied 200 events
    → Streams id w db (handle_ai_generate block a cfg w user id body db)
unfolding handle_ai_generate
handle_ai_generate-Streams block a cfg w user id body db events e =
    let (x, o, f, same) = checked-replied (open_generate a cfg user id body db) db _ 200 events e in
    let (u, p, d, before) = x in
    let t = new_turn cfg w id u.uid "generate" (user_message p.name d) before in
    let s = generate_events-IsStream block a w p t d before db in
    rw same (
      start_stream-Streams id w before (generate_events block a w p t d before db) db events
        (subst
          (λ k.
            IsStream k db (generate_events block a w p t d before db).0
              (generate_events block a w p t d before db).1)
          (open_generate-id a cfg user id body db x o) s)
        f)

-- The same for handleAIChat, where the done alone answers a message without changing the source.
pub handle_ai_chat-Streams :
    (a : Answers) (cfg : AiConfig) (w : AiWorld) (user : Option User) (id : String)
    (body : Option Text) (db : Db) (events : List Event)
    → (handle_ai_chat a cfg w user id body db).1 ≡ replied 200 events
    → Streams id w db (handle_ai_chat a cfg w user id body db)
unfolding handle_ai_chat
handle_ai_chat-Streams a cfg w user id body db events e =
    let (c, o, f, same) = checked-replied (open_chat a cfg user id body db) db _ 200 events e in
    let t = new_turn cfg w id c.user.uid "chat" c.message c.before in
    let s = chat_events-IsStream a w c.project t c.before db in
    rw same (
      start_stream-Streams id w c.before (chat_events a w c.project t c.before db) db events
        (subst
          (λ k.
            IsStream k db (chat_events a w c.project t c.before db).0
              (chat_events a w c.project t c.before db).1)
          (open_chat-id a cfg user id body db c o) s)
        f)
