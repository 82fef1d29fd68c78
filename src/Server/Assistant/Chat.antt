-- ===== src/Server/Assistant/Chat.antt =====
-- handleAIChat (service/internal/server/handlers_ai.go).
use aifstudio.Prelude.{
  ℕ, ◌+◌, ◌-◌, String, true, false, not, List, [], ◌∷◌, ◌++◌, Option, none, some, ltb, leb, length,
  if◌then◌else◌,
}
use mathlib.Core.List.{reverse}
use aifstudio.Text.{Text, text_eq, trim_space}
use aifstudio.Auth.Tables.{User, ok, err}
use aifstudio.Auth.Handlers.{byte_length}
use aifstudio.Store.Rows.{Project, AiTurn, Db}
use aifstudio.Store.Records.{list_ai_conversation, create_ai_turn}
use aifstudio.Openai.Fence.{extract_fenced_inform7}
use aifstudio.Server.Http.{
  Reply, Check, stop, pass, checked, and_then, signed_in, require, is_id, Answers, own_project,
}
use aifstudio.Server.Projects.{decoded}
use aifstudio.Server.Assistant.{
  Event, failure, done, AiConfig, AiWorld, Streamed, unstreamed, consume, upstream_failure,
  new_turn, write_failed, write_turn, available, read_source, start_stream,
}

pub record Message : Type 0 where
  pub role : String
  pub content : Text

unfoldable pub turn_size : AiTurn → ℕ
turn_size t = byte_length t.user_message + byte_length t.assistant_reply

-- The loop over the turns from the last one back, as long as they fit into the budget: what it puts in
-- front of `tail`.
unfoldable pub take_turns : ℕ → List AiTurn → List Message → List Message
take_turns budget [] tail = tail
take_turns budget (t ∷ ts) tail = elim (ltb budget (turn_size t)) [
  | true ↦ tail
  | false ↦ take_turns (budget - turn_size t) ts (
      record { role = "user"; content = t.user_message }
      ∷ record { role = "assistant"; content = t.assistant_reply }
      ∷ tail)
]

-- The messages of a chat request behind the system prompt.
unfoldable pub chat_messages : List AiTurn → Text → List Message
chat_messages turns msg =
    take_turns 80000 (reverse turns) [] ++ (record { role = "user"; content = msg } ∷ [])

unfoldable pub valid_message : AiConfig → Text → Check Unit
valid_message cfg msg =
    if text_eq msg []
    then stop 400 "empty_message"
    else if ltb cfg.max_message (byte_length msg)
    then stop 413 "message_too_large"
    else pass tt

-- The conversation, if it is not full.
unfoldable pub conversation : Answers → AiConfig → String → Db → Check (List AiTurn)
conversation a cfg id db = elim (list_ai_conversation a.list_turns id cfg.max_turns db) [
  | err _ ↦ stop 500 "internal"
  | ok turns ↦ if leb cfg.max_turns (length turns) then stop 409 "conversation_full" else pass turns
]

-- What the handler knows before it streams: user, project, message, source, and the messages.
pub record ChatStart : Type 0 where
  pub user : User
  pub project : Project
  pub message : Text
  pub before : Text
  pub messages : List Message

unfoldable pub open_chat :
    Answers → AiConfig → Option User → String → Option Text → Db → Check ChatStart
open_chat a cfg user id body db = and_then (signed_in user) (λ u.
    and_then (require (is_id b'p' id) 400 "invalid_id") (λ _. and_then (decoded body) (λ sent.
      let msg = trim_space sent in
      and_then (valid_message cfg msg) (λ _. and_then (own_project a u.uid id db) (λ p.
        and_then (available cfg) (λ _. and_then (conversation a cfg id db) (λ turns.
          and_then (read_source a id db) (λ before. pass (record {
            user = u;
            project = p;
            message = msg;
            before = before;
            messages = chat_messages turns msg;
          })))))))))

-- A reply without a fence is an answer that changes no source; an error of the write is only logged.
unfoldable pub write_answer : Answers → AiWorld → AiTurn → Text → Text → Db → Db × List Event
write_answer a w t raw before db = (
  (create_ai_turn a.create_turn
      (record t { source_after = before; assistant_reply = raw; model_finished_at = w.finished })
      db).0,
  done raw t.prompt_tokens t.completion_tokens ∷ [],
)

unfoldable pub finish_chat :
    Answers → AiWorld → Project → AiTurn → Text → Streamed → Db → Db × List Event
finish_chat a w p t before s db =
    let ((new_source, reply), fenced) = extract_fenced_inform7 s.reply in
    if not fenced
    then write_answer a w t s.reply before db
    else if ltb 500000 (byte_length new_source)
    then (db, failure "source_too_large" ∷ [])
    else write_turn a (record p { updated_at = w.finished })
        (record t {
          source_after = new_source;
          assistant_reply = reply;
          model_finished_at = w.finished;
        })
        new_source w.finished db

unfoldable pub chat_events : Answers → AiWorld → Project → AiTurn → Text → Db → Db × List Event
chat_events a w p t before db = elim w.chunks [
  | none ↦ (write_failed a t w.error_text [] before db, upstream_failure ∷ [])
  | some cs ↦
      let s = consume cs unstreamed in
      let t1 = record t {
        prompt_tokens = s.prompt_tokens;
        completion_tokens = s.completion_tokens;
      } in
      if s.is_error
      then (write_failed a t1 w.error_text [] before db, s.events ++ (upstream_failure ∷ []))
      else let (db1, rest) = finish_chat a w p t1 before s db in (db1, s.events ++ rest)
]

-- handleAIChat
unfoldable pub handle_ai_chat :
    Answers → AiConfig → AiWorld → Option User → String → Option Text → Db → Db × Reply (List Event)
handle_ai_chat a cfg w user id body db = checked (open_chat a cfg user id body db) db (λ c.
    let t = new_turn cfg w id c.user.uid "chat" c.message c.before in
    start_stream w c.before (chat_events a w c.project t c.before db) db)
