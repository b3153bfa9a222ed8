-- ===== src/Robot/Storage.antt =====
-- server/app/services/storage.py: what the background tasks write. Whatever raises is logged.
pub mod Sessions
use open_yzj.Value.Methods.{integer_value}
use open_yzj.Prelude.{Bool, Option, String, [], false, map, none, some, true, ℕ, ◌∷◌}
use open_yzj.Value.{Fields, Value, arr, bool, end, field, int, null, obj, of_list, str}
use open_yzj.Mongo.{Mongo, Query, Update, no_update, where_eq}
use open_yzj.Robot.Message.{ApiCallLog, CommandLog, Payload}

abbrev pub opt_text : Option String → Value
opt_text none = null
opt_text (some s) = str s

-- `payload.model_dump()`
abbrev pub payload_dict : Payload → Fields
payload_dict p = field "type" (integer_value p.kind) (
    field "robotId" (str p.robot_id) (
      field "robotName" (str p.robot_name) (
        field "operatorOpenid" (str p.operator_openid) (
          field "operatorName" (str p.operator_name) (
            field "time" (integer_value p.time)
              (field "msgId" (str p.msg_id) (field "content" (str p.content) end)))))))

-- `MessageDoc(...).model_dump()`
abbrev pub message_doc : ℕ → Payload → String → String → Option String → Bool → Fields
message_doc now p robot_code session_id sign_algo is_test = field "robot_code" (str robot_code) (
    field "robotId" (str p.robot_id) (
      field "robotName" (str p.robot_name) (
        field "operatorOpenid" (str p.operator_openid) (
          field "operatorName" (str p.operator_name) (
            field "msgId" (str p.msg_id) (
              field "content" (str p.content) (
                field "type" (integer_value p.kind) (
                  field "time" (integer_value p.time) (
                    field "sessionId" (str session_id) (
                      field "sign_algo" (opt_text sign_algo) (
                        field "is_test" (bool is_test) (
                          field "received_at" (int now)
                            (field "raw_payload" (obj (payload_dict p)) end)))))))))))))

abbrev pub session_query : String → Query
session_query session_id = where_eq "sessionId" (str session_id)

abbrev pub session_update : ℕ → Payload → String → String → Update
session_update now p robot_code session_id = record no_update {
  set_on_insert = field "sessionId" (str session_id) (
      field "robot_code" (str robot_code) (
        field "robotId" (str p.robot_id) (
          field "operatorOpenid" (str p.operator_openid) (
            field "operatorName" (str p.operator_name)
              (field "created_at" (int now) (field "context" (obj end) end))))));
  set =
      field "last_msgId" (str p.msg_id)
        (field "last_content" (str p.content) (field "updated_at" (int now) end));
  inc = ("message_count", 1) ∷ [];
}

abbrev pub opt_number : Option ℕ → Value
opt_number none = null
opt_number (some n) = int n

abbrev pub api_call_doc : ApiCallLog → Fields
api_call_doc l = field "url" (str l.url) (
    field "method" (str l.method) (
      field "status_code" (opt_number l.status_code)
        (field "cost_ms" (opt_number l.cost_ms) (field "error" (opt_text l.error) end))))

-- `doc.model_dump()`
abbrev pub command_log_doc : ℕ → CommandLog → Fields
command_log_doc now d = field "msgId" (str d.msg_id) (
    field "robotId" (str d.robot_id) (
      field "sessionId" (str d.session_id) (
        field "command" (str d.command) (
          field "handler" (str d.handler) (
            field "status" (str d.status) (
              field "request_content" (str d.request_content) (
                field "response_content" (opt_text d.response_content) (
                  field "external_api_calls"
                    (arr (of_list (map (λ l. obj (api_call_doc l)) d.external_api_calls)))
                    (field "cost_ms" (opt_number d.cost_ms)
                      (field "error" (opt_text d.error) (field "created_at" (int now) end)))))))))))

module _ (m : Mongo) (now : ℕ) where
  -- `save_message`
  unfoldable pub save_message_in :
      Payload → String → String → Option String → Bool → m.State → m.State
  save_message_in p robot_code session_id sign_algo is_test db =
      (m.insert_one db "messages" (message_doc now p robot_code session_id sign_algo is_test)).1

  -- `upsert_session`
  unfoldable pub upsert_session_in : Payload → String → String → m.State → m.State
  upsert_session_in p robot_code session_id db =
      (m.update_one db "sessions" (session_query session_id)
        (session_update now p robot_code session_id) true).1

  -- `save_command_log`
  unfoldable pub save_command_log : CommandLog → m.State → m.State
  save_command_log d db = (m.insert_one db "command_logs" (command_log_doc now d)).1

  -- `update_command_log`
  unfoldable pub update_command_log : Query → Fields → m.State → m.State
  update_command_log filter update db =
      (m.update_one db "command_logs" filter (record no_update { set = update }) false).1
