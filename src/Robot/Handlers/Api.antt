-- ===== src/Robot/Handlers/Api.antt =====
-- server/app/services/handlers/api_handler.py, with `APICaller` of
-- server/app/services/api_caller.py.
pub mod Logged
use open_yzj.Prelude.{
  List, Option, Result, String, [], catch, concat, decimal, exc_text, if◌then◌else◌, none, ok,
  raise, some, ℕ, ◌∷◌,
}
use open_yzj.Value.{Fields, Value, end, field, get, obj, str, truthy}
use open_yzj.Value.Methods.{Codec, text_of}
use open_yzj.Proxy.Forwarder.Send.{Response}
use open_yzj.Proxy.Kdcloud.Gateway.{raise_for_status}
use open_yzj.Robot.Message.{
  ApiCallLog, CommandLog, Payload, ResponseData, Task, text_reply, write_command_log,
}

abbrev pub demo_api_url : String
demo_api_url = "https://httpbin.org/anything"

abbrev pub api_fallback_text : String
api_fallback_text = "调用外部接口失败，请稍后重试"

-- `_extract_origin`
abbrev pub extract_origin : Codec → Value → String
extract_origin c (obj body) =
    if truthy (get "origin" body) then text_of c (get "origin" body) else "未知来源"
extract_origin c _ = "未知来源"

-- the time that the call takes, the time until a failure is logged, and the time of the handler
pub record Times : Type 0 where
  pub call_ms : ℕ
  pub failed_ms : ℕ
  pub cost_ms : ℕ

-- `resp.json()`, or else `resp.text`
abbrev pub body_of : Response → Value
body_of resp = catch resp.json (λ e. str resp.text)

-- `_write_command_log`
abbrev pub api_log :
    Payload → String → String → ℕ → String → Option String → List ApiCallLog → CommandLog
api_log p session_id reply cost_ms status error calls = record {
  msg_id = p.msg_id;
  robot_id = p.robot_id;
  session_id = session_id;
  command = "api";
  handler = "api_call";
  status = status;
  request_content = p.content;
  response_content = some reply;
  external_api_calls = calls;
  cost_ms = some cost_ms;
  error = error;
}

-- `request` is the network: a method, a URL and the parameters
module _ {N : Type 0} (request : N → String → String → Fields → Result Response × N) (c : Codec)
    (times : Times) where
  unfoldable pub checked :
      String → String → Response → Result Response → N → Result (Value × ApiCallLog) × N
  checked method url resp (ok good) n = (
    ok (
      body_of good,
      record {
        url = url;
        method = method;
        status_code = some resp.status_code;
        cost_ms = some times.call_ms;
        error = none;
      },
    ),
    n,
  )
  checked method url resp (raise e) n = (raise e, n)

  unfoldable pub received : String → String → Result Response × N → Result (Value × ApiCallLog) × N
  unfolding checked
  received method url (ok resp, n) = checked method url resp (raise_for_status resp) n
  received method url (raise e, n) = (raise e, n)

  -- `APICaller.call`, of a method in capitals
  unfoldable pub call : String → String → Fields → N → Result (Value × ApiCallLog) × N
  unfolding received
  call method url params n = received method url (request n method url params)

  abbrev pub origin_reply : Value → String
  origin_reply body =
      concat "已调用外部 API，请求来自 "
        (concat (extract_origin c body) (concat "，耗时 " (concat (decimal times.call_ms) "ms")))

  unfoldable pub answered :
      Payload → String → Result (Value × ApiCallLog) × N → Result ResponseData × (List Task × N)
  answered p session_id (ok (body, call_log), n) = (
    ok (text_reply (origin_reply body)),
    (
      write_command_log
            (api_log p session_id (origin_reply body) times.cost_ms "success" none (call_log ∷ []))
          ∷ [],
      n,
    ),
  )
  answered p session_id (raise e, n) = (
    ok (text_reply api_fallback_text),
    (
      write_command_log (
            api_log p session_id api_fallback_text times.cost_ms "failed" (some (exc_text e)) (
              record {
                url = demo_api_url;
                method = "GET";
                status_code = none;
                cost_ms = some times.failed_ms;
                error = some (exc_text e);
              }
              ∷ []))
          ∷ [],
      n,
    ),
  )

  -- `ApiHandler.handle`
  unfoldable pub api_handle : Payload → String → String → N → Result ResponseData × (List Task × N)
  unfolding call answered
  api_handle p session_id robot_code n =
      answered p session_id (call "GET" demo_api_url (field "source" (str "openyzj") end) n)
