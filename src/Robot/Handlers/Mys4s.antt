-- ===== src/Robot/Handlers/Mys4s.antt =====
-- server/app/services/handlers/mys4s_handler.py, `MYS4SHandler`: a pass for a number plate.
pub mod Course
use open_yzj.Prelude.{
  Bool, List, Option, Result, String, [], any, attribute_error, catch, concat, exc_text, false,
  has_text, if◌then◌else◌, is_empty, none, not, ok, raise, some, type_error, ℕ, ◌=?◌, ◌>>=◌, ◌||◌,
  ◌∷◌,
}
use open_yzj.Robot.Config.{Settings}
use open_yzj.Value.{
  Fields, Value, arr, bool, contains, end, get, int, is_text, num, obj, str, to_list, truthy, ◌or◌,
}
use open_yzj.Value.Methods.{Codec, get_default, text_of}
use open_yzj.Mongo.{Mongo, where_eq}
use open_yzj.Proxy.Forwarder.Send.{Response}
use open_yzj.Robot.Message.{CommandLog, Payload, ResponseData, Task, text_reply, write_command_log}
use open_yzj.Robot.Handlers.Plates.{parse_plate_and_service}
use open_yzj.Robot.Handlers.PassCard.{call_mys4s_api, pass_card}

-- `v == 0`
abbrev pub equals_zero : Value → Bool
equals_zero (int n) = n =? 0
equals_zero (bool b) = not b
equals_zero (num x) = x.is_zero
equals_zero _ = false

-- `"无" in v`
unfoldable pub names_none : Value → Result Bool
unfolding has_text
names_none (str s) = ok (has_text "无" s)
names_none (arr vs) = ok (any (is_text "无") (to_list vs))
names_none (obj d) = ok (contains "无" d)
names_none _ = raise type_error

abbrev pub success_reply : String → String → String → String
success_reply car_no service name =
    concat "通行证发送成功\n车牌：" (concat car_no (concat "\n事由：" (concat service (concat "\n操作人：" name))))

abbrev pub format_prompt : String → String
format_prompt robot_code = concat "请输入正确格式：车牌号 事由\n例如：沪A12345 来访接待\n[机器人:" (concat robot_code "]")

abbrev pub no_sid_reply : String → String
no_sid_reply robot_code = concat "当前机器人(" (concat robot_code ")未配置门店 SID，请联系管理员")

-- `_write_command_log`, of a message and its outcome and the one external call
abbrev pub command_log_of :
    String → Payload → String → String → ℕ → String → Option String → CommandLog
command_log_of url p session_id reply cost_ms status error = record {
  msg_id = p.msg_id;
  robot_id = p.robot_id;
  session_id = session_id;
  command = "mys4s";
  handler = "mys4s";
  status = status;
  request_content = p.content;
  response_content = some reply;
  external_api_calls =
      record {
        url = url;
        method = "POST";
        status_code = none;
        cost_ms = some cost_ms;
        error = error;
      }
      ∷ [];
  cost_ms = some cost_ms;
  error = error;
}

-- What the handler takes from libraries: `qr` draws the image and gives its path, and `dumps` is
-- `json.dumps`.
module _ (m : Mongo) {N : Type 0} (post : N → String → Fields → Fields → Result Response × N)
    (hmac_b64 : List ℕ → List ℕ → String) (c : Codec) (qr : Fields → Result String)
    (dumps : Value → String) (conf : Settings) where
  -- a text field of the robot with a code: `_get_sid` and `_get_company_name`
  unfoldable pub robot_field : String → String → m.State → Result (Option String)
  robot_field key robot_code db = if is_empty robot_code then ok none else do
    found ← m.find_one db "robots" (where_eq "robot_code" (str robot_code))
    ok (elim found [
      | some doc ↦ if truthy (get key doc) then some (text_of c (get key doc)) else none
      | none ↦ none
    ])

  abbrev pub or_blank : Option String → String
  or_blank none = ""
  or_blank (some s) = s

  -- the card of a temporary plate, the `try` inside
  unfoldable pub card_for : Fields → String → String → String → m.State → Result ResponseData
  unfolding robot_field pass_card
  card_for api_data car_no service robot_code db = do
    png_path ← qr api_data
    company_name ← robot_field "company_name" robot_code db
    ok (record {
      kind = 25;
      content = "无牌车通行证发送成功";
      forward_control = some "1";
      card = some (
        conf.mys4s_card_template_id,
        dumps (
            obj (
              pass_card c api_data (or_blank company_name) car_no service
                (concat conf.base_url png_path))),
      );
    })

  -- the answer to a pass that was granted
  unfoldable pub granted_reply :
      Fields → String → String → String → String → m.State → Result ResponseData
  unfolding card_for names_none
  granted_reply result car_no service robot_code name db =
      elim (get_default "data" (obj end) result) [
        | obj api_data ↦ (do
          temporary ← names_none (get_default "Info" (str "") api_data)
          ok (
              if temporary
              then catch (card_for api_data car_no service robot_code db)
                  (λ e. text_reply (success_reply car_no service name))
              else text_reply (success_reply car_no service name)))
        | _ ↦ raise attribute_error
      ]

  -- the answer to what the API returned
  unfoldable pub reply_to :
      Value → String → String → String → String → m.State → Result ResponseData
  unfolding granted_reply
  reply_to (obj result) car_no service robot_code name db =
      if equals_zero (get "code" result) || truthy (get "success" result)
      then granted_reply result car_no service robot_code name db
      else ok (
          text_reply (
            concat "发送失败：" (
              text_of c
                (get "msg" result or get "message" result or str (text_of c (obj result))))))
  reply_to v car_no service robot_code name db = ok (text_reply (success_reply car_no service name))

  -- what the log holds of an answer: a card counts as its text
  abbrev pub logged_text : String → ResponseData → String
  logged_text granted reply = if reply.kind =? 25 then granted else reply.content

  abbrev pub pass_url : String
  pass_url = concat conf.mys4s_base_url "/vehicle/passcard/send"

  -- the reply and the log behind the call
  unfoldable pub settle :
      Payload → String → String → String → ℕ → Result ResponseData → Result ResponseData × List Task
  settle p session_id car_no service cost_ms (ok reply) = (
    ok reply,
    write_command_log (
          command_log_of pass_url p session_id
            (logged_text (success_reply car_no service p.operator_name) reply) cost_ms "success"
            none)
        ∷ [],
  )
  settle p session_id car_no service cost_ms (raise e) =
      let reply = concat "调用道闸接口失败：" (exc_text e) in
      (
        ok (text_reply reply),
        write_command_log
              (command_log_of pass_url p session_id reply cost_ms "failed" (some (exc_text e)))
            ∷ [],
      )

  unfoldable pub after_call :
      Payload
      → String
      → String
      → String
      → String
      → ℕ
      → m.State
      → Result Value × N
      → Result ResponseData × (List Task × (m.State × N))
  unfolding settle reply_to
  after_call p session_id robot_code car_no service cost_ms db (r, n) =
      let (reply, tasks) =
        settle p session_id car_no service cost_ms
          (r >>= λ v. reply_to v car_no service robot_code p.operator_name db) in
      (reply, (tasks, (db, n)))

  unfoldable pub with_sid :
      Payload
      → String
      → String
      → String
      → String
      → ℕ
      → Result (Option String)
      → m.State × N
      → Result ResponseData × (List Task × (m.State × N))
  unfolding after_call
  with_sid p session_id robot_code car_no service cost_ms (raise e) s = (raise e, ([], s))
  with_sid p session_id robot_code car_no service cost_ms (ok none) s =
      (ok (text_reply (no_sid_reply robot_code)), ([], s))
  with_sid p session_id robot_code car_no service cost_ms (ok (some sid)) (db, n) =
      after_call p session_id robot_code car_no service cost_ms db
        (call_mys4s_api post hmac_b64 conf car_no service sid p.operator_name n)

  unfoldable pub with_plate :
      Payload
      → String
      → String
      → String
      → String
      → ℕ
      → m.State × N
      → Result ResponseData × (List Task × (m.State × N))
  unfolding with_sid robot_field
  with_plate p session_id robot_code car_no service cost_ms (db, n) =
      with_sid p session_id robot_code car_no service cost_ms (robot_field "sid" robot_code db)
        (db, n)

  unfoldable pub with_content :
      ℕ
      → Payload
      → String
      → String
      → Option String × String
      → m.State × N
      → Result ResponseData × (List Task × (m.State × N))
  with_content cost_ms p session_id robot_code (none, service) s =
      (ok (text_reply (format_prompt robot_code)), ([], s))
  with_content cost_ms p session_id robot_code (some car_no, service) s =
      with_plate p session_id robot_code car_no service cost_ms s

  -- `handle`; `cost_ms` is the time that the call takes
  unfoldable pub mys4s_handle :
      ℕ
      → Payload
      → String
      → String
      → m.State × N
      → Result ResponseData × (List Task × (m.State × N))
  unfolding with_content
  mys4s_handle cost_ms p session_id robot_code s =
      with_content cost_ms p session_id robot_code (parse_plate_and_service p.content) s
