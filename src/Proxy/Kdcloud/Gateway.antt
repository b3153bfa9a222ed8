-- ===== src/Proxy/Kdcloud/Gateway.antt =====
-- proxy-server/app/kdcloud_client.py, the calls: the clients of the two environments, the two
-- login calls, and the unified gateway with the interfaces behind it.
use open_yzj.Prelude.{
  List, Option, Result, String, [], attribute_error, external, if◌then◌else◌, leb, ltb, none, ok,
  raise, runtime_error, some, ℕ, ◌&&◌, ◌==◌, ◌∷◌,
}
use open_yzj.Prelude.Effect.{Effect}
use open_yzj.Value.{Fields, Value, end, field, get, obj, put, str}
use open_yzj.Proxy.Forwarder.Send.{Response}
use open_yzj.Proxy.Kdcloud.{
  KeyCache, Settings, Wire, base_url, decode_data, encode_data, get_tenant_id,
}

-- `_clients`, a client by its base URL, and `_default_env`
pub record Clients : Type 0 where
  pub by_env : List (String × String)
  pub default_env : String

abbrev pub find_client : String → List (String × String) → Option String
find_client env [] = none
find_client env ((e, url) ∷ more) = if e == env then some url else find_client env more

-- `init_kdcloud_client`
abbrev pub init_kdcloud_client : Settings → String → Clients
init_kdcloud_client conf env = record {
  by_env = ("test", base_url conf "test") ∷ ("prod", base_url conf "prod") ∷ [];
  default_env = env;
}

-- `close_kdcloud_client`
abbrev pub close_kdcloud_client : Clients → Clients
close_kdcloud_client clients = record clients { by_env = [] }

-- `get_kdcloud_client`
unfoldable pub get_kdcloud_client : Clients → String → Result String
get_kdcloud_client clients env = elim (find_client env clients.by_env) [
  | some client ↦ ok client
  | none ↦ elim (find_client clients.default_env clients.by_env) [
    | some default ↦ ok default
    | none ↦ raise (runtime_error "金蝶发票云客户端未初始化，请先调用 init_kdcloud_client()")
  ]
]

-- `resp.raise_for_status()`
abbrev pub raise_for_status : Response → Result Response
raise_for_status resp =
    if leb 200 resp.status_code && ltb resp.status_code 300
    then ok resp
    else raise (external "HTTPStatusError" resp.text)

abbrev pub json_of : Result Response → Result Value
json_of (ok resp) = resp.json
json_of (raise e) = raise e

abbrev pub app_token_payload : Settings → String → Fields
app_token_payload conf env = field "appId" (str conf.kdcloud_app_id) (
    field "appSecret" (str conf.kdcloud_app_secret) (
      field "tenantid" (str (get_tenant_id conf env)) (
        field "accountId" (str conf.kdcloud_account_id)
          (field "language" (str conf.kdcloud_language) end))))

abbrev pub login_payload : Settings → Value → String → Fields
login_payload conf app_token env = field "user" (str conf.kdcloud_user) (
    field "apptoken" app_token (
      field "tenantid" (str (get_tenant_id conf env)) (
        field "accountId" (str conf.kdcloud_account_id)
          (field "usertype" (str conf.kdcloud_usertype) end))))

-- `_build_gateway_request`, of the encoded data
abbrev pub build_gateway_request : Settings → String → String → String → Fields
build_gateway_request conf interface_code encoded request_id = field "requestId" (str request_id) (
    field "businessSystemCode" (str conf.kdcloud_business_system_code)
      (field "interfaceCode" (str interface_code) (field "data" (str encoded) end)))

-- `_build_gateway_headers`
abbrev pub build_gateway_headers : Value → Fields
build_gateway_headers access_token =
    field "access_token" access_token (field "Content-Type" (str "application/json") end)

-- The network, as a call finds and leaves it; a POST to a path of a client, with headers and a
-- body. The content type of a client is among the headers of each of its calls.
module _ {N : Type 0} (post : N → String → String → Fields → Fields → Result Response × N)
    (conf : Settings) (clients : Clients) where
  answer_of : Result Response × N → Result Value × N
  answer_of (ok resp, n) = (json_of (raise_for_status resp), n)
  answer_of (raise e, n) = (raise e, n)

  call_json : String → String → Fields → Fields → Effect N Value
  unfolding answer_of get_kdcloud_client
  call_json env path headers body n = elim (get_kdcloud_client clients env) [
    | ok client ↦ answer_of (post n client path headers body)
    | raise e ↦ (raise e, n)
  ]

  -- `get_app_token`
  unfoldable pub get_app_token : String → Effect N Value
  unfolding call_json
  get_app_token env = call_json env "/api/getAppToken.do" end (app_token_payload conf env)

  -- `login`
  unfoldable pub login : Value → String → Effect N Value
  unfolding call_json
  login app_token env = call_json env "/api/login.do" end (login_payload conf app_token env)

  module _ (w : Wire) where
    -- `result["data"]` decoded, when it is a text that can be
    unfoldable pub decode_answer : Value → KeyCache → Result Value × KeyCache
    unfolding decode_data
    decode_answer (obj result) cache = elim (get "data" result) [
      | str encoded ↦
          let (decoded, cache') = decode_data w conf.kdcloud_aes_key encoded cache in
          (ok (obj (elim decoded [ ok v ↦ put "data" v result | raise e ↦ result ])), cache')
      | v ↦ (ok (obj result), cache)
    ]
    decode_answer v cache = (raise attribute_error, cache)

    decode_call : Result Value × N → KeyCache → Result Value × (KeyCache × N)
    unfolding decode_answer
    decode_call (ok v, n) cache =
        let (answer, cache') = decode_answer v cache in (answer, (cache', n))
    decode_call (raise e, n) cache = (raise e, (cache, n))

    -- `_call_gateway`; `iv` is the nonce that the encryption draws
    unfoldable pub call_gateway :
        String → Value → Value → String → String → List ℕ → Effect (KeyCache × N) Value
    unfolding decode_call encode_data call_json
    call_gateway interface_code data_content access_token request_id env iv (cache, n) =
        elim (get_kdcloud_client clients env) [
          | ok client ↦
              let (encoded, cache') = encode_data w conf.kdcloud_aes_key iv data_content cache in
              decode_call
                (call_json env "/kapi/app/sim/openApi" (build_gateway_headers access_token)
                  (build_gateway_request conf interface_code encoded request_id) n)
                cache'
          | raise e ↦ (raise e, (cache, n))
        ]

    module _ (data_content access_token : Value) (request_id env : String) (iv : List ℕ) where
      abbrev pub create_invoice : Effect (KeyCache × N) Value
      create_invoice = call_gateway "BILL.PUSH" data_content access_token request_id env iv

      abbrev pub revoke_invoice : Effect (KeyCache × N) Value
      revoke_invoice = call_gateway "BILL.WITHDRAW" data_content access_token request_id env iv

      abbrev pub query_invoice_apply : Effect (KeyCache × N) Value
      query_invoice_apply =
          call_gateway "BILL.INVOICE.QUERY" data_content access_token request_id env iv

      abbrev pub query_vehicle_info : Effect (KeyCache × N) Value
      query_vehicle_info =
          call_gateway "QUIERY.VEHICLE.INFO" data_content access_token request_id env iv

      abbrev pub issue_vehicle_invoice : Effect (KeyCache × N) Value
      issue_vehicle_invoice =
          call_gateway "INVOICE.OPEN.VEHICLE" data_content access_token request_id env iv

      abbrev pub red_flush_vehicle : Effect (KeyCache × N) Value
      red_flush_vehicle =
          call_gateway "INVOICE.RED.VEHICLE" data_content access_token request_id env iv

      abbrev pub batch_query_digital : Effect (KeyCache × N) Value
      batch_query_digital =
          call_gateway "ALLE.BATCH.QUERY" data_content access_token request_id env iv

      abbrev pub single_query_digital : Effect (KeyCache × N) Value
      single_query_digital =
          call_gateway "ALLE.INVOICE.QUERY" data_content access_token request_id env iv
