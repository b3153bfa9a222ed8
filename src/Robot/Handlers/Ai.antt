-- ===== src/Robot/Handlers/Ai.antt =====
-- server/app/services/handlers/ai_handler.py, with `AICaller` of server/app/services/ai_caller.py.
pub mod Settled
use open_yzj.Prelude.{
  Bool, Exc, List, Result, String, [], code, concat, exc_text, external, false, if◌then◌else◌,
  is_empty, lstrip, none, ok, raise, rstrip, runtime_error, strip, suffix, true, ℕ, ◌&&◌, ◌=?◌,
  ◌>>=◌, ◌||◌, ◌∷◌,
}
use open_yzj.Value.{Fields, Value, arr, cons, end, field, int, nil, obj, str, truthy, ◌or◌}
use open_yzj.Value.Methods.{Codec, elements, get_value, strip_value, text_of}
use open_yzj.Mongo.{Mongo, Query, both, where_eq}
use open_yzj.Proxy.Forwarder.Send.{Response}
use open_yzj.Proxy.Kdcloud.Gateway.{json_of, raise_for_status}
use open_yzj.Robot.Config.{Settings}
use open_yzj.Robot.Message.{CommandLog, Payload, ResponseData, Task, run_ai, text_reply}
use open_yzj.Robot.Outbound.{push_card_message}
use open_yzj.Robot.Router.{is_separator, lower}
use open_yzj.Robot.Storage.{save_command_log, update_command_log}

abbrev pub placeholder_reply : String
placeholder_reply = "正在思考中，结果稍后推送…"

-- `text.startswith(prefix)`, of texts in lower case
unfoldable pub begins_with : List ℕ → List ℕ → Bool
begins_with [] text = true
begins_with (p ∷ ps) [] = false
begins_with (p ∷ ps) (c ∷ text) = (c =? p) && begins_with ps text

-- `tail.lstrip(" :：\t").strip()`
abbrev pub after_prefix : String → String
after_prefix tail = strip (lstrip (λ c. is_separator (code c)) tail)

-- `_strip_prefix`; both prefixes have three characters
unfoldable pub strip_prefix : String → String
unfolding begins_with lower strip lstrip
strip_prefix content =
    let raw = strip content in
    if begins_with (lower "/ai") (lower raw) || begins_with (lower "#ai") (lower raw)
    then after_prefix (suffix 3 raw)
    else raw

-- `AIHandler.handle`
unfoldable pub ai_handle :
    {W : Type 0} → Payload → String → String → W → Result ResponseData × (List Task × W)
unfolding strip_prefix
ai_handle p session_id robot_code w = (
  ok (text_reply placeholder_reply),
  (run_ai p session_id (strip_prefix p.content) robot_code ∷ [], w),
)

abbrev pub chat_headers : Settings → Fields
chat_headers conf =
    field "Authorization" (str (concat "Bearer " conf.openai_api_key))
      (field "Content-Type" (str "application/json") end)

abbrev pub chat_body : Settings → String → Fields
chat_body conf prompt = field "model" (str conf.openai_model) (
    field "messages"
      (arr (cons (obj (field "role" (str "user") (field "content" (str prompt) end))) nil)) end)

abbrev pub chat_url : Settings → String
chat_url conf =
    concat
      (rstrip (λ c. code c =? b'/')
        (if is_empty conf.openai_api_base
          then "https://api.openai.com/v1"
          else conf.openai_api_base))
      "/chat/completions"

-- `v[0]`
abbrev pub first_element : Value → Result Value
first_element v = do
  vs ← elements v
  elim vs [ [] ↦ raise (external "IndexError" "") | w ∷ more ↦ ok w ]

-- the text in an answer of the model
unfoldable pub text_in : Codec → Value → Result String
unfolding get_value elements strip_value
text_in c answer = do
  choices ← get_value "choices" answer
  choice ← first_element (choices or arr (cons (obj end) nil))
  message ← get_value "message" choice
  text ← get_value "content" (message or obj end)
  if truthy text
      then strip_value text
      else raise (runtime_error (concat "AI 响应缺少 content 字段: " (text_of c answer)))

-- `post` is the network: a URL, the headers and a body; `is_http_error` tells the errors of httpx
module _ {N : Type 0} (post : N → String → Fields → Fields → Result Response × N)
    (is_http_error : Exc → Bool) (c : Codec) (conf : Settings) where
  abbrev pub chat_error : Exc → Exc
  chat_error e =
      if is_http_error e
      then runtime_error (concat "AI 调用 HTTP 失败: " (exc_text e))
      else runtime_error (concat "AI 调用失败: " (exc_text e))

  unfoldable pub read_answer : Result Response × N → Result String × N
  unfolding text_in
  read_answer (r, n) = (
    elim (r >>= λ resp. json_of (raise_for_status resp) >>= text_in c) [
      | ok text ↦ ok text
      | raise e ↦ raise (chat_error e)
    ],
    n,
  )

  -- `AICaller.chat`
  unfoldable pub chat : String → N → Result String × N
  unfolding read_answer rstrip
  chat prompt n =
      if is_empty conf.openai_api_key
      then (ok (concat "[AI 模拟回复] 你说: " prompt), n)
      else read_answer (post n (chat_url conf) (chat_headers conf) (chat_body conf prompt))

-- the log that `_run_ai` begins with, and the query that finds it again
abbrev pub pending_doc : Payload → String → CommandLog
pending_doc p session_id = record {
  msg_id = p.msg_id;
  robot_id = p.robot_id;
  session_id = session_id;
  command = "ai";
  handler = "ai";
  status = "pending";
  request_content = p.content;
  response_content = none;
  external_api_calls = [];
  cost_ms = none;
  error = none;
}

abbrev pub pending_query : String → Query
pending_query msg_id =
    both (where_eq "msgId" (str msg_id))
      (both (where_eq "command" (str "ai")) (where_eq "status" (str "pending")))

abbrev pub success_update : String → ℕ → Fields
success_update reply cost_ms =
    field "status" (str "success")
      (field "response_content" (str reply) (field "cost_ms" (int cost_ms) end))

abbrev pub failure_update : Exc → ℕ → Fields
failure_update e cost_ms =
    field "status" (str "failed")
      (field "error" (str (exc_text e)) (field "cost_ms" (int cost_ms) end))

-- `_run_ai`: `ask` is `caller.chat`; `post` takes a URL and a body
module _ (m : Mongo) {N : Type 0} (post : N → String → Fields → Result Response × N)
    (ask : String → N → Result String × N) (conf : Settings) (now cost_ms failed_ms : ℕ)
    (p : Payload) (session_id : String) where
  -- what follows the push; only what raises in it is written
  unfoldable pub after_push : Result (Unit {0}) × (m.State × N) → m.State × N
  after_push (ok done, s) = s
  after_push (raise e, (db, n)) =
      (update_command_log m now (pending_query p.msg_id) (failure_update e failed_ms) db, n)

  unfoldable pub after_chat : String → m.State → Result String × N → m.State × N
  unfolding after_push
  after_chat robot_code db (ok reply, n) = after_push (
      push_card_message m post conf.yunzhijia_webhook_url p.robot_id session_id reply robot_code
        (update_command_log m now (pending_query p.msg_id) (success_update reply cost_ms) db, n))
  after_chat robot_code db (raise e, n) =
      (update_command_log m now (pending_query p.msg_id) (failure_update e failed_ms) db, n)

  unfoldable pub run_ai_task : String → String → m.State × N → m.State × N
  unfolding after_chat
  run_ai_task prompt robot_code (db, n) =
      after_chat robot_code (save_command_log m now (pending_doc p session_id) db)
        (ask (if is_empty prompt then "（空 prompt）" else prompt) n)
