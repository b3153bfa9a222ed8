-- ===== src/Examples/Service.antt =====
-- server/app as a whole at a concrete input.

use open_yzj.Robot.Handlers.Ai.{chat}
use open_yzj.Robot.Storage.{update_command_log}
use open_yzj.Prelude.{
  Result, String, length, lstrip, raise, refl, rstrip, strip, true, value_error, ℕ, ◌≡◌,
}
use open_yzj.Value.{contains, get, put}
use open_yzj.Bytes.{encode}
use open_yzj.Mongo.{find_first, update_docs}
use open_yzj.Indexes.{unique_key}
use open_yzj.Examples.Indexed.{
  indexed-Enforces, indexed-IsDocumented, indexed-IsSeparate, messages-IsReachable,
  messages_indexed,
}
use open_yzj.Mongo.Memory.{Docs}
use open_yzj.Robot.Message.{ResponseData}
use open_yzj.Robot.Router.{route}
use open_yzj.Robot.Processor.{strip_at_mention}
use open_yzj.Robot.Webhook.{webhook}
use open_yzj.Robot.Service.{Clocks, Outside, run_handler, serve}
use open_yzj.Robot.Service.Stored.{Stored, serve-Stored}
use open_yzj.Examples.Samples.{accepting, plain}
use open_yzj.Examples.Robots.{hello, hmac, robots, vault}
use open_yzj.Examples.Passes.{settings}

abbrev outside : Outside ℕ
outside = record {
  post = λ n url headers body. accepting n url body;
  request = λ n method url params. accepting n url params;
  push = accepting;
  is_http_error = λ e. true;
  codec = plain;
  sign_pass = λ key text. "sign";
  sign_message = hmac;
  draw = λ d. raise value_error;
  dumps = λ v. "{}";
}

abbrev clocks : Clocks
clocks = record {
  now = 5;
  pass_ms = 7;
  echo_ms = 1;
  api_times = record { call_ms = 3; failed_ms = 4; cost_ms = 5 };
  chat_ms = 6;
  failed_ms = 8;
}

abbrev served : Docs → String → Result ResponseData × (Docs × ℕ)
served db sign =
    serve messages_indexed vault outside settings "prod" clocks "url" hello sign "s1" (db, 0)

serve_message_example :
    Stored 5 hello "s1"
      (served robots "sha256").0
      (robots "messages")
      ((served robots "sha256").1.0 "messages")
serve_message_example =
    serve-Stored messages_indexed (indexed-IsDocumented "messages" (unique_key "msgId"))
      (indexed-IsSeparate "messages" (unique_key "msgId")) messages-IsReachable
      (indexed-Enforces "messages" (unique_key "msgId")) vault outside settings "prod" clocks hello
      "s1" "url" "sha256" robots 0

-- an answered message is stored once, also when it comes again, with the log of the model
answered_and_stored :
    (length ((served robots "sha256").1.0 "messages") ≡ 1)
    × (length ((served robots "sha256").1.0 "command_logs") ≡ 1)
    × (length ((served (served robots "sha256").1.0 "sha256").1.0 "messages") ≡ 1)
    × (length ((served robots "wrong").1.0 "messages") ≡ 0)
unfolding serve webhook find_first get contains encode rstrip strip lstrip route strip_at_mention
    run_handler chat update_command_log update_docs put
answered_and_stored = (refl, refl, refl, refl)
