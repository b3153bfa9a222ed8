-- ===== src/Robot/Message.antt =====
-- server/app/models: the request and the response of the webhook, and the tasks that run once the
-- response is sent.

use open_yzj.Prelude.{Bool, List, Option, String, none, ℕ}
use open_yzj.Bytes.{Integer}

-- `YunzhijiaPayload`
pub record Payload : Type 0 where
  pub kind : Integer
  pub robot_id : String
  pub robot_name : String
  pub operator_openid : String
  pub operator_name : String
  pub time : Integer
  pub msg_id : String
  pub content : String

-- `YunzhijiaResponseData`; a card is its template and its content
pub record ResponseData : Type 0 where
  pub kind : ℕ
  pub content : String
  pub forward_control : Option String
  pub card : Option (String × String)

-- a message of type 2
abbrev pub text_reply : String → ResponseData
text_reply content = record { kind = 2; content = content; forward_control = none; card = none }

pub record ApiCallLog : Type 0 where
  pub url : String
  pub method : String
  pub status_code : Option ℕ
  pub cost_ms : Option ℕ
  pub error : Option String

-- `CommandLogDoc`, less its time
pub record CommandLog : Type 0 where
  pub msg_id : String
  pub robot_id : String
  pub session_id : String
  pub command : String
  pub handler : String
  pub status : String
  pub request_content : String
  pub response_content : Option String
  pub external_api_calls : List ApiCallLog
  pub cost_ms : Option ℕ
  pub error : Option String

-- `bg.add_task(...)`
pub data Task : Type 0 where
  save_message : Payload → String → String → Option String → Bool → Task
  upsert_session : Payload → String → String → Task
  write_command_log : CommandLog → Task
  -- the payload, the session, the prompt and the robot's code
  run_ai : Payload → String → String → String → Task

abbrev pub test_robot_id : String
test_robot_id = "test-robotId"
