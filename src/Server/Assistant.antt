-- ===== src/Server/Assistant.antt =====
-- The handlers of the assistant (service/internal/server/handlers_ai.go) with ai_limiter.go and
-- ai_prompts.go. The channel of StreamChat is the list of its chunks, `none` when the call fails. What a
-- reply says does not depend on the messages here: the model is part of the world.
pub mod Chat
pub mod Written
pub mod Endings
pub mod Streams
pub mod Budget
pub mod Joined
mod Tests
use aifstudio.Prelude.{
  ℕ, String, Bool, true, false, not, ◌&&◌, ◌||◌, List, [], ◌∷◌, ◌++◌, Option, none, some, ltb, leb,
  ◌==◌, str_eq, length, if◌then◌else◌,
}
use aifstudio.Text.{Text, text, text_eq, trim_space, newline}
use aifstudio.Auth.Tables.{User, Result, ok, err}
use aifstudio.Auth.Handlers.{byte_length}
use aifstudio.Store.Rows.{Project, AiTurn, Db}
use aifstudio.Store.Projects.{get_project_source, put_project_source}
use aifstudio.Store.Records.{list_ai_conversation, create_ai_turn, update_project_ai}
use aifstudio.Openai.Stream.{Chunk}
use aifstudio.Openai.Fence.{extract_fenced_inform7}
use aifstudio.Server.Http.{
  Reply, refused, replied, Check, stop, pass, checked, and_then, signed_in, require, is_id, Answers,
  own_project,
}
use aifstudio.Server.Projects.{decoded}

pub data Event : Type 0 where
  start : String → Text → Event
  delta : Text → Event
  failure : String → Event
  source : Text → Event
  done : Text → ℕ → ℕ → Event

-- What the configuration and the limiter say: the longest description and message, the number of
-- turns, the model, whether there is an API key, and whether Allow grants the call.
pub record AiConfig : Type 0 where
  pub max_description : ℕ
  pub max_message : ℕ
  pub max_turns : ℕ
  pub model : String
  pub has_key : Bool
  pub allowed : Bool

-- What the model and the clock give to one call: the chunks, the times of request and end, and the new
-- turn's id; `error_text` is the text of the error that ends the call or the stream, and `flushes` says
-- that the reply can be streamed.
pub record AiWorld : Type 0 where
  pub chunks : Option (List Chunk)
  pub error_text : Text
  pub requested : ℕ
  pub finished : ℕ
  pub turn_id : String
  pub flushes : Bool

-- The loop over the chunks: the events sent, the reply so far and the usage, and whether an error ended
-- it.
pub record Streamed : Type 0 where
  pub events : List Event
  pub reply : Text
  pub prompt_tokens : ℕ
  pub completion_tokens : ℕ
  pub is_error : Bool

unfoldable pub with_delta : Text → Streamed → Streamed
with_delta [] s = s
with_delta (c ∷ d) s = record s {
  events = s.events ++ (delta (c ∷ d) ∷ []);
  reply = s.reply ++ (c ∷ d);
}

unfoldable pub with_tokens : Chunk → Streamed → Streamed
with_tokens c s =
    if c.done
    then record s { prompt_tokens = c.prompt_tokens; completion_tokens = c.completion_tokens }
    else s

unfoldable pub consume : List Chunk → Streamed → Streamed
consume [] s = s
consume (c ∷ cs) s = elim c.is_error [
  | true ↦ record s { is_error = true }
  | false ↦ consume cs (with_tokens c (with_delta c.delta s))
]

abbrev pub unstreamed : Streamed
unstreamed = record {
  events = [];
  reply = [];
  prompt_tokens = 0;
  completion_tokens = 0;
  is_error = false;
}

abbrev pub upstream_failure : Event
upstream_failure = failure "openai_upstream"

abbrev pub new_turn : AiConfig → AiWorld → String → String → String → Text → Text → AiTurn
new_turn cfg w pid uid kind message before = record {
  id = w.turn_id;
  project_id = pid;
  owner_uid = uid;
  kind = kind;
  user_message = message;
  assistant_reply = [];
  source_before = before;
  source_after = [];
  model_requested_at = w.requested;
  model_finished_at = 0;
  prompt_tokens = 0;
  completion_tokens = 0;
  model = cfg.model;
  error = [];
}

-- A turn that changes nothing, written on the way out of a failure; an error of the write is only
-- logged.
unfoldable pub write_failed : Answers → AiTurn → Text → Text → Text → Db → Db
write_failed a t message reply before db =
    (create_ai_turn a.create_turn
      (record t { error = message; assistant_reply = reply; source_after = before }) db).0

-- The two writes of a turn that succeeds.
unfoldable pub write_turn : Answers → Project → AiTurn → Text → ℕ → Db → Db × List Event
write_turn a p t new_source finished db =
    let (db1, written) = put_project_source a.put_source p.id new_source finished db in
    if not written
    then (db1, failure "gcs_upload_failed" ∷ [])
    else let (db2, saved) = update_project_ai a.update_ai p (some t) db1 in
      if not saved then (db2, failure "internal" ∷ []) else (
        db2,
        source new_source ∷ done t.assistant_reply t.prompt_tokens t.completion_tokens ∷ [],
      )

-- The stream's start, if the reply can be streamed, with what follows.
unfoldable pub start_stream : AiWorld → Text → Db × List Event → Db → Db × Reply (List Event)
start_stream w before (db1, events) db =
    if w.flushes
    then (db1, replied 200 (start w.turn_id before ∷ events))
    else (db, refused 500 "no_flusher")

-- The first part of handleAIGenerate: the project and its description for the model.
unfoldable pub fresh_project : Answers → String → Db → Check Unit
fresh_project a id db = elim (list_ai_conversation a.list_turns id 1 db) [
  | err _ ↦ stop 500 "internal"
  | ok turns ↦ if ltb 0 (length turns) then stop 409 "ai_already_generated" else pass tt
]

unfoldable pub valid_description : AiConfig → Text → Check Unit
valid_description cfg d =
    if text_eq d []
    then stop 400 "invalid_description"
    else if ltb cfg.max_description (byte_length d)
    then stop 413 "description_too_large"
    else pass tt

unfoldable pub available : AiConfig → Check Unit
available cfg =
    and_then (require cfg.allowed 429 "ai_rate_limited")
      (λ _. require cfg.has_key 503 "openai_unavailable")

unfoldable pub read_source : Answers → String → Db → Check Text
read_source a id db = elim (get_project_source a.get_source id db) [
  | err _ ↦ stop 500 "source_read_failed"
  | ok s ↦ pass s
]

abbrev pub or_else : Text → Text → Text
or_else [] t = t
or_else (c ∷ s) t = c ∷ s

unfoldable pub open_generate :
    Answers
    → AiConfig
    → Option User
    → String
    → Option Text
    → Db
    → Check (User × Project × Text × Text)
open_generate a cfg user id body db = and_then (signed_in user) (λ u.
    and_then (require (is_id b'p' id) 400 "invalid_id") (λ _. and_then (decoded body) (λ sent.
      and_then (own_project a u.uid id db) (λ p. and_then (fresh_project a id db) (λ _.
        let d = or_else (trim_space sent) p.description in
        and_then (valid_description cfg d) (λ _.
          and_then (available cfg)
            (λ _. and_then (read_source a id db) (λ before. pass (u, p, d, before)))))))))

-- BuildGenerateUserMessage
unfoldable pub user_message : Text → Text → Text
user_message name description =
    text "Project name: "
    ++ (name
        ++ (newline ∷ newline ∷ text "Description of the game I want:"
            ++ (newline ∷ description
                ++ (newline ∷ newline ∷ text "Please write the Inform 7 source for this game."))))

-- ExtractDescriptionBlock finds the block by a regular expression: `description_block` gives its
-- content and the text without it.
module _ (description_block : Text → Option (Text × Text)) where
  unfoldable pub extract_description_block : Text → Text × Text
  extract_description_block raw = elim (description_block raw) [
    | none ↦ ([], raw)
    | some (content, rest) ↦ (trim_space content, rest)
  ]

  -- The reply is complete: handleAIGenerate from the extraction on.
  unfoldable pub finish_generate :
      Answers → AiWorld → Project → AiTurn → Text → Text → Streamed → Db → Db × List Event
  finish_generate a w p t d before s db =
      let (found, raw) = extract_description_block s.reply in
      let ((new_source, reply), fenced) = extract_fenced_inform7 raw in
      if not fenced
      then (
        write_failed a t (text "no fenced code block found in model reply") raw before db,
        failure "no_fence" ∷ [],
      )
      else if ltb 500000 (byte_length new_source)
      then (db, failure "source_too_large" ∷ [])
      else write_turn a (record p { description = or_else found d; updated_at = w.finished })
          (record t {
            source_after = new_source;
            assistant_reply = reply;
            model_finished_at = w.finished;
          })
          new_source w.finished db

  unfoldable pub generate_events :
      Answers → AiWorld → Project → AiTurn → Text → Text → Db → Db × List Event
  generate_events a w p t d before db = elim w.chunks [
    | none ↦ (write_failed a t w.error_text [] before db, upstream_failure ∷ [])
    | some cs ↦
        let s = consume cs unstreamed in
        let t1 = record t {
          prompt_tokens = s.prompt_tokens;
          completion_tokens = s.completion_tokens;
        } in
        if s.is_error
        then (write_failed a t1 w.error_text [] before db, s.events ++ (upstream_failure ∷ []))
        else let (db1, rest) = finish_generate a w p t1 d before s db in (db1, s.events ++ rest)
  ]

  -- handleAIGenerate
  unfoldable pub handle_ai_generate :
      Answers
      → AiConfig
      → AiWorld
      → Option User
      → String
      → Option Text
      → Db
      → Db × Reply (List Event)
  handle_ai_generate a cfg w user id body db =
      checked (open_generate a cfg user id body db) db (λ (u, p, d, before).
        let t = new_turn cfg w id u.uid "generate" (user_message p.name d) before in
        start_stream w before (generate_events a w p t d before db) db)
