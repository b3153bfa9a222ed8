-- ===== src/Robot/Outbound.antt =====
-- server/app/services/outbound.py: pushing a text into a chat.
use open_yzj.Prelude.{
  Option, Result, String, if◌then◌else◌, is_empty, none, ok, raise, some, type_error,
}
use open_yzj.Prelude.Effect.{Effect}
use open_yzj.Value.{Fields, Value, arr, end, field, get, str, truthy}
use open_yzj.Mongo.{Mongo, where_eq}
use open_yzj.Proxy.Forwarder.Send.{Response}

-- `post` is the network: a URL and a body
module _ (m : Mongo) {N : Type 0} (post : N → String → Fields → Result Response × N)
    (default_url : String) where
  abbrev pub push_payload : String → String → String → Fields
  push_payload robot_id session_id content =
      field "robotId" (str robot_id)
        (field "sessionId" (str session_id) (field "content" (str content) end))

  abbrev pub push_url : Option Fields → Value
  push_url none = str default_url
  push_url (some doc) =
      if truthy (get "webhook_push_url" doc) then get "webhook_push_url" doc else str default_url

  -- the URL of the robot, or else that of the settings
  unfoldable pub find_push_url : String → m.State → Result Value
  find_push_url robot_code db =
      if is_empty robot_code
      then ok (str default_url)
      else elim (m.find_one db "robots" (where_eq "robot_code" (str robot_code))) [
        | ok doc ↦ ok (push_url doc)
        | raise e ↦ raise e
      ]

  -- the request, where whatever raises is logged; a URL that is no text raises before it is sent,
  -- and the log raises again when it takes the first fifty characters of what is no sequence
  unfoldable pub send_push : Value → Fields → N → Result (Unit {0}) × N
  send_push (str url) payload n = (ok tt, (post n url payload).1)
  send_push (arr vs) payload n = (ok tt, n)
  send_push v payload n = (raise type_error, n)

  unfoldable pub push_found : Result Value → Fields → Effect (m.State × N) (Unit {0})
  unfolding send_push
  push_found (ok url) payload (db, n) = let (r, n') = send_push url payload n in (r, (db, n'))
  push_found (raise e) payload s = (raise e, s)

  -- `push_card_message`
  unfoldable pub push_card_message :
      String → String → String → String → Effect (m.State × N) (Unit {0})
  unfolding push_found find_push_url
  push_card_message robot_id session_id content robot_code (db, n) =
      push_found (find_push_url robot_code db) (push_payload robot_id session_id content) (db, n)
