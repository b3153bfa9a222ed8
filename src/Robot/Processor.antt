-- ===== src/Robot/Processor.antt =====
-- server/app/services/message_processor.py: choosing a handler and running it.
pub mod Answers
use open_yzj.Prelude.{
  Bool, List, Result, String, [], any, code, concat, false, has_text, if◌then◌else◌, is_empty,
  is_space, lstrip, not, ok, raise, strip, true, type_error, ◌=?◌,
}
use open_yzj.Value.{Value, arr, contains, is_text, obj, str, to_list, truthy}
use open_yzj.Robot.Message.{Payload, ResponseData, Task, text_reply}
use open_yzj.Robot.Router.{Handler, handler_name, route}

abbrev pub fallback_text : String
fallback_text = "哎呀,出现了点小问题,要不等会再试试？"

-- what follows an `@`: a name, at least one character long, and blanks
unfoldable pub after_at : String → String → String
after_at s String.[] = s
after_at s (String.◌∷◌ c more) =
    if is_space c then s else lstrip is_space (lstrip (λ d. not (is_space d)) (String.◌∷◌ c more))

-- `re.compile(r"^@\S+\s*").sub("", s)`
unfoldable pub drop_mention : String → String
unfolding after_at lstrip
drop_mention String.[] = ""
drop_mention (String.◌∷◌ c s) =
    if code c =? b'@' then after_at (String.◌∷◌ c s) s else String.◌∷◌ c s

-- `_strip_at_mention`
unfoldable pub strip_at_mention : String → String
unfolding drop_mention strip
strip_at_mention content = strip (drop_mention content)

-- `name in allowed`
unfoldable pub is_in : String → Value → Result Bool
unfolding has_text
is_in name (arr vs) = ok (any (is_text name) (to_list vs))
is_in name (str s) = ok (has_text name s)
is_in name (obj d) = ok (contains name d)
is_in name _ = raise type_error

-- the fallback answer, with the robot's code when there is one
abbrev pub fallback : String → ResponseData
fallback robot_code = text_reply (
    if is_empty robot_code
    then fallback_text
    else concat fallback_text (concat "(机器人:" (concat robot_code ")")))

-- the payload with the mention taken off
abbrev pub clean : Payload → Payload
clean p = record p { content = strip_at_mention p.content }

abbrev pub not_supported : Handler → ResponseData
not_supported h = text_reply (concat "当前机器人不支持「" (concat (handler_name h) "」功能"))

-- A handler run on a payload, a session and the robot's code, in a world that it may change; the
-- tasks that it adds count also when it raises.
module _ {W : Type 0}
    (run : Handler → Payload → String → String → W → Result ResponseData × (List Task × W)) where
  -- the `try` of `handle`
  abbrev pub guarded :
      String → Result ResponseData × (List Task × W) → Result ResponseData × (List Task × W)
  guarded robot_code (ok reply, rest) = (ok reply, rest)
  guarded robot_code (raise e, rest) = (ok (fallback robot_code), rest)

  unfoldable pub allowed_run :
      Payload → String → String → Value → Handler → W → Result ResponseData × (List Task × W)
  unfolding is_in
  allowed_run p session_id robot_code allowed h w =
      elim (if truthy allowed then is_in (handler_name h) allowed else ok true) [
        | ok true ↦ guarded robot_code (run h (clean p) session_id robot_code w)
        | ok false ↦ (ok (not_supported h), ([], w))
        | raise e ↦ (raise e, ([], w))
      ]

  -- `handle`
  unfoldable pub handle :
      Payload → String → String → Value → W → Result ResponseData × (List Task × W)
  unfolding allowed_run
  handle p session_id robot_code allowed w =
      allowed_run p session_id robot_code allowed (route (clean p).content) w
