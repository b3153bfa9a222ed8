-- ===== src/Robot/Service.antt =====
-- The robot as a whole: server/app/api/yunzhijia.py over the handlers that
-- server/app/services/command_router.py registers, and the background tasks, which run in order once
-- an answer is sent, and not when the webhook raises.
pub mod Kept
pub mod Stored
use open_yzj.Prelude.{Bool, Exc, List, Result, String, [], ok, raise, ℕ, ◌∷◌}
use open_yzj.Value.{Fields, Value}
use open_yzj.Value.Methods.{Codec}
use open_yzj.Mongo.{Mongo}
use open_yzj.Proxy.Forwarder.Send.{Response}
use open_yzj.Robot.Config.{Settings}
use open_yzj.Robot.Message.{
  Payload, ResponseData, Task, run_ai, save_message, upsert_session, write_command_log,
}
use open_yzj.Robot.Signature.{Algo}
use open_yzj.Robot.Secret.{Vault}
use open_yzj.Robot.Router.{Handler, ai, api, echo, mys4s}
use open_yzj.Robot.Storage.{save_command_log, save_message_in, upsert_session_in}
use open_yzj.Robot.Webhook.{webhook}
use open_yzj.Robot.Handlers.Ai.{ai_handle, chat, run_ai_task}
use open_yzj.Robot.Handlers.Api.{Times, api_handle}
use open_yzj.Robot.Handlers.Echo.{echo_handle}
use open_yzj.Robot.Handlers.Mys4s.{mys4s_handle}

-- what is outside of the program, over the state of the network
pub record Outside (N : Type 0) : Type 0 where
  pub post : N → String → Fields → Fields → Result Response × N
  pub request : N → String → String → Fields → Result Response × N
  pub push : N → String → Fields → Result Response × N
  pub is_http_error : Exc → Bool
  pub codec : Codec
  pub sign_pass : List ℕ → List ℕ → String
  pub sign_message : Algo → List ℕ → List ℕ → String
  pub draw : Fields → Result String
  pub dumps : Value → String

-- the readings of the clocks
pub record Clocks : Type 0 where
  pub now : ℕ
  pub pass_ms : ℕ
  pub echo_ms : ℕ
  pub api_times : Times
  pub chat_ms : ℕ
  pub failed_ms : ℕ

module _ (m : Mongo) (v : Vault) {N : Type 0} (o : Outside N) (conf : Settings) (env : String)
    (clocks : Clocks) where
  abbrev pub Reply : Type 0
  Reply = Result ResponseData × (List Task × (m.State × N))

  abbrev pub beside_database : m.State → Result ResponseData × (List Task × N) → Reply
  beside_database db (r, (tasks, n)) = (r, (tasks, (db, n)))

  -- the registered handlers
  unfoldable pub run_handler : Handler → Payload → String → String → m.State × N → Reply
  unfolding ai_handle api_handle mys4s_handle
  run_handler echo p session_id robot_code s = echo_handle clocks.echo_ms p session_id robot_code s
  run_handler ai p session_id robot_code s = ai_handle p session_id robot_code s
  run_handler api p session_id robot_code (db, n) =
      beside_database db (api_handle o.request o.codec clocks.api_times p session_id robot_code n)
  run_handler mys4s p session_id robot_code s =
      mys4s_handle m o.post o.sign_pass o.codec o.draw o.dumps conf clocks.pass_ms p session_id
        robot_code s

  abbrev pub ask : String → N → Result String × N
  ask = chat o.post o.is_http_error o.codec conf

  unfoldable pub run_task : Task → m.State × N → m.State × N
  unfolding save_message_in upsert_session_in save_command_log run_ai_task
  run_task (save_message p robot_code session_id sign_algo is_test) (db, n) =
      (save_message_in m clocks.now p robot_code session_id sign_algo is_test db, n)
  run_task (upsert_session p robot_code session_id) (db, n) =
      (upsert_session_in m clocks.now p robot_code session_id db, n)
  run_task (write_command_log l) (db, n) = (save_command_log m clocks.now l db, n)
  run_task (run_ai p session_id prompt robot_code) s =
      run_ai_task m o.push ask conf clocks.now clocks.chat_ms clocks.failed_ms p session_id prompt
        robot_code s

  unfoldable pub run_tasks : List Task → m.State × N → m.State × N
  unfolding run_task
  run_tasks [] s = s
  run_tasks (task ∷ tasks) s = run_tasks tasks (run_task task s)

  unfoldable pub finish : Reply → Result ResponseData × (m.State × N)
  unfolding run_tasks
  finish (ok reply, (tasks, s)) = (ok reply, run_tasks tasks s)
  finish (raise e, (tasks, s)) = (raise e, s)

  -- a request to the webhook, with all that follows from it
  unfoldable pub serve :
      String → Payload → String → String → m.State × N → Result ResponseData × (m.State × N)
  unfolding webhook finish
  serve url_robot_code p sign session_id (db, n) =
      finish (
        webhook m v o.sign_message run_handler env clocks.now url_robot_code p sign session_id db n)
