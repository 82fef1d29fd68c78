-- ===== src/Server/Assistant/Tests.antt =====
-- A request to the assistant of a small project (service/internal/server/handlers_ai.go).
use aifstudio.Prelude.{◌≡◌, refl, false, List, [], ◌∷◌, Option, none, some}
use aifstudio.Text.{
  Text, text, text_eq, index, cons_trimmed, has_prefix, has_suffix, is_space, trim_left, trim_right,
  trim_space,
}
use aifstudio.Auth.Tables.{fmt_time, parse_time}
use aifstudio.Store.Table.{find_row, has_key, insert_by, order_by, select_where, top, update_where}
use aifstudio.Store.Rows.{AiTurn, scan_project, parse_null_time, scan_turn, turn_row}
use aifstudio.Store.Runs.{clamp}
use aifstudio.Store.Projects.{
  project_key, get_project, get_project_source, has_project, put_project_source, set_project,
  upsert_source,
}
use aifstudio.Store.Records.{create_ai_turn, list_ai_conversation, update_project_ai}
use aifstudio.Store.Samples.{ann, pid, small}
use aifstudio.Openai.Stream.{
  Event, stream_chat, chunks, data_of, last_chunk, take_delta, take_event, with_usage,
}
use aifstudio.Openai.Stream.Fold.{final_content}
use aifstudio.Store.Projects
use aifstudio.Openai.Fence.{
  extract_fenced_inform7, first_fence, with_fence, open_at, close_at, reply_of,
}
use aifstudio.Server.Http.{
  replied, is_id, is_id_text, is_tail, is_upper_or_digit, and_then, checked, own_project, signed_in,
}
use aifstudio.Auth.Handlers.{byte_length}
use aifstudio.Server.Http.Owned.{all_answer}
use aifstudio.Server.Samples.{config, content, model, call}
use aifstudio.Server.Projects.{decoded}
use aifstudio.Server.Assistant
use aifstudio.Server.Assistant.{handle_ai_generate, consume, unstreamed}
use aifstudio.Server.Assistant.Streams.{Streams, handle_ai_generate-Streams}
use aifstudio.Server.Assistant.Budget.{Window, chat_messages-Window}
use aifstudio.Server.Assistant.Joined.{consume-stream_chat}

abbrev sent : List Assistant.Event
sent =
    Assistant.start "t-1" (text "The Cave is a room.")
    ∷ Assistant.delta content
    ∷ Assistant.source (text "A room.")
    ∷ Assistant.done (text "Hi") 0 0
    ∷ []

generated :
    (handle_ai_generate call.block all_answer config model (some ann) pid call.body small).1
    ≡ replied 200 sent
unfolding handle_ai_generate checked Assistant.open_generate and_then signed_in is_id is_id_text
    is_tail is_upper_or_digit decoded own_project get_project Projects.scanned find_row scan_project
    Assistant.fresh_project list_ai_conversation top fmt_time parse_time Assistant.available consume
    Assistant.extract_description_block Assistant.finish_generate Assistant.generate_events
    Assistant.read_source Assistant.start_stream Assistant.user_message Assistant.valid_description
    Assistant.with_delta Assistant.with_tokens Assistant.write_failed Assistant.write_turn
    get_project_source has_project put_project_source set_project upsert_source create_ai_turn
    update_project_ai parse_null_time scan_turn turn_row clamp has_key insert_by order_by
    select_where update_where cons_trimmed is_space text_eq trim_left trim_right trim_space
    byte_length extract_fenced_inform7 first_fence with_fence open_at close_at reply_of index
    has_suffix has_prefix
generated = refl

handle_ai_generate-Streams_example :
    Streams pid model small
      (handle_ai_generate call.block all_answer config model (some ann) pid call.body small)
handle_ai_generate-Streams_example =
    handle_ai_generate-Streams call.block all_answer config model (some ann) pid call.body small
      sent generated

abbrev turn : AiTurn
turn = record {
  id = "t-0";
  project_id = pid;
  owner_uid = "u-1";
  kind = "chat";
  user_message = text "Hello?";
  assistant_reply = text "Hi";
  source_before = [];
  source_after = [];
  model_requested_at = 10;
  model_finished_at = 11;
  prompt_tokens = 1;
  completion_tokens = 1;
  model = "m";
  error = [];
}

chat_messages-Window_example : Window (turn ∷ turn ∷ []) (text "And now?")
chat_messages-Window_example = chat_messages-Window (turn ∷ turn ∷ []) (text "And now?")

abbrev lines : List Text
lines = text ": ping" ∷ text "data: {}" ∷ text "data: [DONE]" ∷ []

abbrev decode : Text → Option Event
decode _ = some (record { choice = some (text "Hi"); usage = none })

finished : final_content (stream_chat decode false lines) ≡ some (text "Hi")
unfolding stream_chat chunks data_of text_eq has_prefix take_event take_delta last_chunk with_usage
finished = refl

consume-stream_chat_example :
    ((consume (stream_chat decode false lines) unstreamed).reply ≡ text "Hi")
    × ((consume (stream_chat decode false lines) unstreamed).is_error ≡ false)
consume-stream_chat_example = consume-stream_chat decode false lines (text "Hi") finished
