-- ===== src/Proxy/Callbacks/AutoForward.antt =====
-- proxy-server/app/endpoints/callbacks.py, `_safe_auto_forward`: the task behind a stored callback.
use open_yzj.Prelude.{
  Bool, Option, Result, String, false, if◌then◌else◌, none, not, ok, raise, some, true, ℕ, ◌==◌,
  ◌>>=◌,
}
use open_yzj.Value.{Fields, Value, end, field, get, null, str, truthy, ◌or◌}
use open_yzj.Value.Methods.{Codec}
use open_yzj.Mongo.{Mongo, Update, no_update, where_eq}
use open_yzj.Proxy.Forwarder.Send.{ForwardResult, Response, forward_to_system_a}
use open_yzj.Proxy.Forwarder.Record.{record_forward_result}

-- `doc.get("return_code") in (None, "0")`
abbrev pub is_issued : Value → Bool
is_issued null = true
is_issued (str s) = s == "0"
is_issued _ = false

abbrev pub set_status : String → Update
set_status status = record no_update { set = field "forward_status" (str status) end }

-- `client.get("callback_url") or ""`
abbrev pub callback_url_of : Option Fields → Value
callback_url_of none = str ""
callback_url_of (some client) = get "callback_url" client or str ""

-- the database and the network, as a task finds and leaves them
module _ (m : Mongo) {W : Type 0} (post : W → Value → Fields → Result Response × W)
    (c : Codec) where
  -- the URL of the client that was matched, empty when there is none
  unfoldable pub auto_target : m.State → Fields → Result Value
  auto_target db doc =
      let cid = get "matched_client_id" doc in
      if truthy cid
      then (do
        client ← m.find_one db "proxy_clients" (where_eq "client_id" cid)
        ok (callback_url_of client))
      else ok (str "")

  unfoldable pub record_outcome :
      ℕ → Value → Value → Result ForwardResult × W → m.State → m.State × W
  record_outcome now event_id url (ok result, w) db =
      ((record_forward_result m now event_id url result db).1, w)
  record_outcome now event_id url (raise e, w) db = (db, w)

  unfoldable pub forward_to_value : ℕ → Value → Fields → Value → m.State × W → m.State × W
  unfolding record_outcome
  forward_to_value now event_id doc target_url (db, w) =
      if not (truthy target_url)
      then (db, w)
      else record_outcome now event_id target_url (forward_to_system_a post c doc target_url w) db

  unfoldable pub forward_doc : ℕ → Value → Fields → m.State × W → m.State × W
  unfolding forward_to_value auto_target
  forward_doc now event_id doc (db, w) =
      if not (is_issued (get "return_code" doc))
      then (
        (m.update_one db "kdcloud_callbacks" (where_eq "_id" event_id) (set_status "skipped")
            false).1,
        w,
      )
      else elim (auto_target db doc) [
        | ok target ↦ forward_to_value now event_id doc target (db, w)
        | raise e ↦ (db, w)
      ]

  -- `_safe_auto_forward`: whatever raises is swallowed
  unfoldable pub safe_auto_forward : ℕ → Value → m.State × W → m.State × W
  unfolding forward_doc
  safe_auto_forward now event_id (db, w) =
      elim (m.find_one db "kdcloud_callbacks" (where_eq "_id" event_id)) [
        | ok (some doc) ↦ forward_doc now event_id doc (db, w)
        | _ ↦ (db, w)
      ]
