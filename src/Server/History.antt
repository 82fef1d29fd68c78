-- ===== src/Server/History.antt =====
-- The turns of a project (service/internal/server/handlers_history.go).
use aifstudio.Prelude.{
  ℕ, String, Bool, true, false, not, List, [], Option, none, some, ltb, map, take, length,
  if◌then◌else◌,
}
use aifstudio.Text.{Text, text_eq}
use aifstudio.Auth.Tables.{User, ok, err}
use aifstudio.Store.Rows.{AiTurn, Db}
use aifstudio.Store.Records.{list_ai_conversation, get_ai_turn_after_source}
use aifstudio.Server.Http.{
  Reply, refused, replied, pass, reply_to, and_then, signed_in, require, is_id, Answers,
  own_project,
}

pub record HistoryItem : Type 0 where
  pub id : String
  pub created_at : ℕ
  pub kind : String
  pub user_message : Text
  pub has_source : Bool

unfoldable pub to_history_item : AiTurn → HistoryItem
to_history_item t = record {
  id = t.id;
  created_at = t.model_requested_at;
  kind = t.kind;
  user_message =
      if ltb 120 (length t.user_message) then take 120 t.user_message else t.user_message;
  has_source = not (text_eq t.source_after []);
}

-- handleListHistory; without a store the list is empty for every id of the right form.
unfoldable pub handle_list_history :
    Answers → Bool → Option User → String → Db → Reply (List HistoryItem)
handle_list_history a has_store user id db =
    reply_to
      (and_then (signed_in user)
        (λ u. and_then (require (is_id b'p' id) 400 "invalid_id") (λ _. pass u)))
      (λ u. elim has_store [
        | false ↦ replied 200 []
        | true ↦ reply_to (own_project a u.uid id db) (λ _.
            elim (list_ai_conversation a.list_turns id 200 db) [
              | err _ ↦ refused 500 "internal"
              | ok turns ↦ replied 200 (map to_history_item turns)
            ])
      ])

-- handleGetTurnSource
unfoldable pub handle_get_turn_source :
    Answers → Bool → Option User → String → String → Db → Reply Text
handle_get_turn_source a has_store user id turn_id db =
    reply_to
      (and_then (signed_in user) (λ u. and_then (require (is_id b'p' id) 400 "invalid_id") (λ _.
        and_then (require (is_id b't' turn_id) 400 "invalid_turn_id")
          (λ _. and_then (require has_store 404 "not_found") (λ _. own_project a u.uid id db)))))
      (λ _. elim (get_ai_turn_after_source a.turn_source id turn_id db) [
        | err _ ↦ refused 500 "internal"
        | ok found ↦ elim found [
          | none ↦ refused 404 "not_found"
          | some source ↦ replied 200 source
        ]
      ])
