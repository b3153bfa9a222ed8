-- ===== src/Robot/Handlers/Echo.antt =====
-- server/app/services/handlers/echo_handler.py.
use open_yzj.Prelude.{List, Result, String, [], concat, none, ok, some, ℕ, ◌∷◌}
use open_yzj.Robot.Message.{Payload, ResponseData, Task, text_reply, write_command_log}

-- `EchoHandler.handle`; `cost_ms` is the time that it takes
abbrev pub echo_handle :
    {W : Type 0} → ℕ → Payload → String → String → W → Result ResponseData × (List Task × W)
echo_handle cost_ms p session_id robot_code w =
    let reply = concat "收到：" p.content in
    (
      ok (text_reply reply),
      (
        write_command_log (record {
          msg_id = p.msg_id;
          robot_id = p.robot_id;
          session_id = session_id;
          command = "echo";
          handler = "echo";
          status = "success";
          request_content = p.content;
          response_content = some reply;
          external_api_calls = [];
          cost_ms = some cost_ms;
          error = none;
        })
            ∷ [],
        w,
      ),
    )
