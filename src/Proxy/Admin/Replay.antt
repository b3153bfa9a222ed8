-- ===== src/Proxy/Admin/Replay.antt =====
-- proxy-server/app/admin.py: replaying a stored callback by hand.
use open_yzj.Prelude.{
  Bool, Exc, Option, Result, String, concat, false, forward_config, forward_unsupported,
  http_exception, if◌then◌else◌, is_empty, none, not, ok, raise, some, ℕ,
}
use open_yzj.Prelude.Effect.{Effect, lift, pure, ◌>>=◌}
use open_yzj.Value.{Fields, Value, bool, end, field, get, is_text, null, str, truthy}
use open_yzj.Value.Methods.{Codec, text_of}
use open_yzj.Mongo.{Mongo, where_eq}
use open_yzj.Proxy.Forwarder.Send.{ForwardResult, Response, forward_to_system_a}
use open_yzj.Proxy.Forwarder.Record.{opt_int, opt_str, record_forward_result}
use open_yzj.Proxy.Callbacks.AutoForward.{is_issued, set_status}

-- `ReplayReq`
pub record ReplayReq : Type 0 where
  pub target_url : Option String
  pub client_id : Option String

abbrev pub given : Option String → Bool
given none = false
given (some s) = not (is_empty s)

-- `req_client_id or doc.get("matched_client_id")`
abbrev pub client_choice : Option String → Fields → Value
client_choice none doc = get "matched_client_id" doc
client_choice (some s) doc = if is_empty s then get "matched_client_id" doc else str s

-- `except (ForwardConfigError, ForwardUnsupportedError)`, which become 422
abbrev pub unprocessable : Exc → Exc
unprocessable (forward_config detail) = http_exception 422 detail
unprocessable (forward_unsupported detail) = http_exception 422 detail
unprocessable e = e

abbrev pub mapped : Result ForwardResult → Result ForwardResult
mapped (ok r) = ok r
mapped (raise e) = raise (unprocessable e)

-- `(updated or {}).get("forward_attempts")`
abbrev attempts_of : Option Fields → Value
attempts_of none = null
attempts_of (some d) = get "forward_attempts" d

unfoldable pub replay_reply : Value → ForwardResult → Option Fields → Fields
replay_reply url result updated = field "forwarded" (bool result.succeeded) (
    field "status_code" (opt_int result.status_code) (
      field "forward_attempts" (attempts_of updated)
        (field "target_url" url (field "error" (opt_str result.error) end))))

module _ (m : Mongo) {W : Type 0} (post : W → Value → Fields → Result Response × W)
    (c : Codec) where
  abbrev pub World : Type 0
  World = m.State × W

  abbrev pub query : {A : Type 0} → (m.State → Result A) → Effect World A
  query q (db, w) = (q db, (db, w))

  abbrev pub command : {A : Type 0} → (m.State → Result A × m.State) → Effect World A
  command q (db, w) = let (r, db') = q db in (r, (db', w))

  abbrev pub network : {A : Type 0} → (W → Result A × W) → Effect World A
  network q (db, w) = let (r, w') = q w in (r, (db, w'))

  abbrev url_found : Option Fields → Value
  url_found none = str ""
  url_found (some client) =
      if truthy (get "callback_url" client) then get "callback_url" client else str ""

  -- `_resolve_replay_target`
  unfoldable pub resolve_replay_target : Fields → ReplayReq → Effect World Value
  resolve_replay_target doc req =
      let cid = client_choice req.client_id doc in
      if given req.target_url
      then pure (opt_str req.target_url)
      else if truthy cid
      then (do
        client ← query (λ db. m.find_one db "proxy_clients" (where_eq "client_id" cid))
        pure (url_found client))
      else pure (str "")

  unfoldable pub mark_and_refuse : Value → String → String → Effect World Fields
  mark_and_refuse oid status detail = do
    n ←
        command
          (λ db. m.update_one db "kdcloud_callbacks" (where_eq "_id" oid) (set_status status) false)
    lift (raise (http_exception 422 detail))

  unfoldable pub forward_and_record : ℕ → Value → Fields → Value → Effect World Fields
  forward_and_record now oid doc url = do
    result ← network (λ w. let (r, w') = forward_to_system_a post c doc url w in (mapped r, w'))
    n ← command (λ db. record_forward_result m now oid url result db)
    updated ← query (λ db. m.find_one db "kdcloud_callbacks" (where_eq "_id" oid))
    pure (replay_reply url result updated)

  unfoldable pub replay_to : ℕ → Value → Fields → Value → Effect World Fields
  unfolding forward_and_record
  replay_to now oid doc target_url =
      if not (truthy target_url)
      then lift (raise (http_exception 400 "无法解析 target_url：未显式传入，且 client 无 callback_url"))
      else forward_and_record now oid doc target_url

  -- `replay_callback_event` from the document on
  unfoldable pub replay_doc : ℕ → Value → ReplayReq → Fields → Effect World Fields
  unfolding mark_and_refuse resolve_replay_target replay_to
  replay_doc now oid req doc =
      if not (is_text "by-invoice" (get "endpoint" doc))
      then mark_and_refuse oid "unsupported"
          (concat "endpoint=" (concat (text_of c (get "endpoint" doc)) " 不支持转发（仅 by-invoice）"))
      else if not (is_issued (get "return_code" doc))
      then mark_and_refuse oid "skipped"
          (concat "returnCode=" (concat (text_of c (get "return_code" doc)) "！=0，开票未成功，跳过转发"))
      else do target ← resolve_replay_target doc req; replay_to now oid doc target

  unfoldable pub replay_found : ℕ → Value → ReplayReq → Option Fields → Effect World Fields
  unfolding replay_doc
  replay_found now oid req none = lift (raise (http_exception 404 "callback event not found"))
  replay_found now oid req (some doc) = replay_doc now oid req doc

  -- `replay_callback_event`; `oid` is `ObjectId(event_id)`, and none where that raises
  unfoldable pub replay_callback_event : ℕ → String → Option Value → ReplayReq → Effect World Fields
  unfolding replay_found
  replay_callback_event now event_id none req =
      lift (raise (http_exception 400 (concat "invalid event id: " event_id)))
  replay_callback_event now event_id (some oid) req = do
    doc ← query (λ db. m.find_one db "kdcloud_callbacks" (where_eq "_id" oid))
    replay_found now oid req doc
