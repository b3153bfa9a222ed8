-- ===== src/Proxy/Callbacks/Persist.antt =====
-- proxy-server/app/endpoints/callbacks.py: a callback is stored, acknowledged, and forwarded later.
use open_yzj.Prelude.{
  Bool, List, Option, Result, String, [], false, if◌then◌else◌, length, none, ok, raise, some, true,
  ℕ, ◌++◌, ◌==◌, ◌∷◌,
}
use open_yzj.Value.{Fields, Value, arr, bool, end, field, get, int, null, obj, of_list, put, str}
use open_yzj.Value.Methods.{Codec}
use open_yzj.Mongo.{Mongo, either, where_eq}
use open_yzj.Http.{Request, lookup_or_empty}
use open_yzj.Proxy.RuntimeConfig.{Cache, get_auto_forward_enabled}
use open_yzj.Proxy.Forwarder.Send.{exc_line}
use open_yzj.Proxy.Forwarder.Record.{opt_str}
use open_yzj.Proxy.Callbacks.Flat.{Flat, client_ip, extract_flat_fields}

-- `_ACK`, as the gateway's customer demands it
abbrev pub ack : Fields
ack = field "message" (str "回调成功") (field "errorCode" (str "0") (field "success" (bool true) end))

-- How bytes become text and JSON: `raw.decode("utf-8", errors="replace")` and `json.loads(raw)`.
pub record Decoder : Type 0 where
  pub decode_replace : List ℕ → String
  pub loads_bytes : List ℕ → Result Value

abbrev no_bytes : List ℕ → Bool
no_bytes [] = true
no_bytes (b ∷ bs) = false

-- `_try_parse_json`
unfoldable pub try_parse_json : Decoder → List ℕ → Value × Option String
try_parse_json dec raw =
    if no_bytes raw
    then (null, none)
    else elim (dec.loads_bytes raw) [ ok v ↦ (v, none) | raise e ↦ (null, some (exc_line e)) ]

dict_of : List (String × String) → Fields
dict_of [] = end
dict_of ((k, v) ∷ kvs) = field k (str v) (dict_of kvs)

abbrev pub dict_or_none : Value → Value
dict_or_none (obj d) = obj d
dict_or_none _ = null

flat_fields : Flat → Fields
flat_fields flat = field "interface_code" flat.interface_code (
    field "return_code" flat.return_code (
      field "serial_nos" (arr (of_list flat.serial_nos)) (
        field "bill_nos" (arr (of_list flat.bill_nos)) (
          field "batches" (arr (of_list flat.batches))
            (field "system_sources" (arr (of_list flat.system_sources)) end)))))

-- `_build_doc`
unfoldable pub build_doc : Codec → Decoder → ℕ → Request → String → Value → Option String → Fields
unfolding dict_of flat_fields
build_doc c dec now req tag parsed parse_err = field "endpoint" (str tag) (
    field "received_at" (int now) (
      field "content_type" (str (lookup_or_empty "content-type" req.headers)) (
        field "raw_body" (str (dec.decode_replace req.body)) (
          field "raw_len" (int (length req.body)) (
            field "query_params" (obj (dict_of req.query_params)) (
              field "headers" (obj (dict_of req.headers)) (
                field "client_ip" (str (client_ip req)) (
                  field "parsed" (dict_or_none parsed) (
                    field "parse_error" (opt_str parse_err)
                      (flat_fields (extract_flat_fields c parsed)))))))))))

-- `client["client_id"] if client else None`; a missing key raises, and the `except` gives `None`
abbrev client_id_of : Result (Option Fields) → Value
client_id_of (ok (some client)) = get "client_id" client
client_id_of _ = null

-- What one worker holds: the database as it finds it, the cache of the switch, and the tasks that
-- it has started, by the id of their event.
pub record Worker (m : Mongo) : Type 0 where
  pub db : m.State
  pub cache : Cache
  pub tasks : List Value

module _ (m : Mongo) where
  -- `_match_client_id`
  unfoldable pub match_client_id : m.State → List Value → Value
  match_client_id db [] = null
  match_client_id db (source ∷ rest) = client_id_of (
      m.find_one db "proxy_clients"
        (either (where_eq "client_name" source) (where_eq "client_id" source)))

  -- the hook behind the insertion: only for `by-invoice`, and only if the switch is on
  unfoldable pub schedule_forward : ℕ → String → Value → Worker m → Worker m
  schedule_forward mono tag id w =
      let (enabled, cache) = get_auto_forward_enabled m mono w.db w.cache in
      if tag == "by-invoice"
      then record w { cache = cache; tasks = if enabled then w.tasks ++ id ∷ [] else w.tasks }
      else w

  -- the `try` of `_persist_and_ack`
  unfoldable pub store_and_schedule : ℕ → String → Result Value × m.State → Worker m → Worker m
  unfolding schedule_forward
  store_and_schedule mono tag (ok id, db) w = schedule_forward mono tag id (record w { db = db })
  store_and_schedule mono tag (raise e, db) w = record w { db = db }

  -- the document that `_persist_and_ack` stores
  unfoldable pub callback_doc : Codec → Decoder → ℕ → Request → String → m.State → Fields
  unfolding try_parse_json build_doc match_client_id
  callback_doc c dec now req tag db =
      let (parsed, parse_err) = try_parse_json dec req.body in
      let sources = (extract_flat_fields c parsed).system_sources in
      put "matched_client_id" (match_client_id db sources)
        (build_doc c dec now req tag parsed parse_err)

  -- `_persist_and_ack`; `now` is the wall clock and `mono` the monotonic one
  unfoldable pub persist_and_ack :
      Codec → Decoder → ℕ → ℕ → Request → String → Worker m → Fields × Worker m
  unfolding callback_doc store_and_schedule
  persist_and_ack c dec now mono req tag w =
      let doc = callback_doc c dec now req tag w.db in
      (ack, store_and_schedule mono tag (m.insert_one w.db "kdcloud_callbacks" doc) w)

  -- the three endpoints
  abbrev pub callback_apply_return :
      Codec → Decoder → ℕ → ℕ → Request → Worker m → Fields × Worker m
  callback_apply_return c dec now mono req = persist_and_ack c dec now mono req "apply-return"

  abbrev pub callback_by_invoice : Codec → Decoder → ℕ → ℕ → Request → Worker m → Fields × Worker m
  callback_by_invoice c dec now mono req = persist_and_ack c dec now mono req "by-invoice"

  abbrev pub callback_by_apply : Codec → Decoder → ℕ → ℕ → Request → Worker m → Fields × Worker m
  callback_by_apply c dec now mono req = persist_and_ack c dec now mono req "by-apply"
