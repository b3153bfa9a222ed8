-- ===== src/Proxy/Auth.antt =====
-- proxy-server/app/auth.py: the signed requests of the proxy's callers.
pub mod Soundness
pub mod Confusion
use open_yzj.Prelude.{
  Bool, List, Option, Result, String, [], false, http_exception, if◌then◌else◌, is_empty, key_error,
  leb, ltb, none, not, ok, raise, some, starts_with, true, type_error, ℕ, ◌&&◌, ◌++◌, ◌-◌, ◌>>=◌,
  ◌||◌, ◌∷◌,
}
use open_yzj.Value.{Fields, Value, contains, get, is_text, str, truthy}
use open_yzj.Value.Methods.{iterate}
use open_yzj.Mongo.{Mongo, where_eq}
use open_yzj.Http.{Request, lookup_or_empty}
use open_yzj.Bytes.{compare_digest, distance, encode, parse_int}

-- The cryptography: `hmac.new(key, payload, sha256).hexdigest()` and `decrypt_secret`.
pub record Crypto : Type 0 where
  pub hmac_hex : List ℕ → List ℕ → String
  pub decrypt : String → Result String

-- `_TIMESTAMP_TOLERANCE`
abbrev pub timestamp_tolerance : ℕ
timestamp_tolerance = 300

upper_char : ℕ → ℕ
upper_char n = if leb 97 n && leb n 122 then n - 32 else n

upper_bytes : List ℕ → List ℕ
upper_bytes [] = []
upper_bytes (b ∷ bs) = upper_char b ∷ upper_bytes bs

-- `method.upper().encode("utf-8")`; a method is ASCII
unfoldable pub method_bytes : Request → List ℕ
unfolding upper_bytes upper_char
method_bytes req = upper_bytes (encode req.method)

-- `sign_payload`
unfoldable pub sign_payload : Request → String → List ℕ
sign_payload req timestamp = method_bytes req ++ (encode req.path ++ (encode timestamp ++ req.body))

-- `any(path.startswith(ep) for ep in allowed)`
unfoldable pub any_prefix : String → List Value → Result Bool
any_prefix path [] = ok false
any_prefix path (str ep ∷ eps) = if starts_with path ep then ok true else any_prefix path eps
any_prefix path (_ ∷ eps) = raise type_error

-- `decrypt_secret(client_doc["api_secret_encrypted"])`, where any error is one answer
unfoldable pub secret_of : Crypto → Fields → Result String
secret_of k client = elim (get "api_secret_encrypted" client) [
  | str s ↦ elim (k.decrypt s) [
    | ok secret ↦ ok secret
    | raise e ↦ raise (http_exception 500 "服务端鉴权配置异常")
  ]
  | _ ↦ raise (http_exception 500 "服务端鉴权配置异常")
]

-- the white list of endpoints; an empty one allows all
unfoldable pub check_endpoint : Request → Fields → Result (Unit {0})
unfolding any_prefix
check_endpoint req client =
    let allowed = get "allowed_endpoints" client in
    if truthy allowed
    then (do
      eps ← iterate allowed
      hit ← any_prefix req.path eps
      if hit then ok tt else raise (http_exception 403 "该端点未授权"))
    else ok tt

-- `str(client_doc["client_id"])`; what is stored there is text
abbrev pub text_id : Fields → String
text_id client = elim (get "client_id" client) [ str s ↦ s | _ ↦ "" ]

-- the signature, and the caller's id
unfoldable pub check_signature :
    Crypto → Request → String → String → Fields → String → Result String
unfolding sign_payload
check_signature k req timestamp signature client secret = do
  same ← compare_digest (k.hmac_hex (encode secret) (sign_payload req timestamp)) signature
  if same
      then (if contains "client_id" client then ok (text_id client) else raise key_error)
      else raise (http_exception 401 "签名验证失败")

-- the checks against the client's document
unfoldable pub check_client : Crypto → Request → String → String → Option Fields → Result String
unfolding check_endpoint secret_of check_signature
check_client k req timestamp signature none = raise (http_exception 401 "无效的 Proxy API Key")
check_client k req timestamp signature (some client) =
    if not (is_text "active" (get "status" client))
    then raise (http_exception 403 "代理客户端已被禁用")
    else do
      allowed ← check_endpoint req client
      secret ← secret_of k client
      check_signature k req timestamp signature client secret

-- the age of the request
unfoldable pub check_timestamp : ℕ → String → Result (Unit {0})
check_timestamp now timestamp = elim (parse_int timestamp) [
  | none ↦ raise (http_exception 401 "X-Proxy-Timestamp 格式无效")
  | some ts ↦
      if ltb timestamp_tolerance (distance now ts)
      then raise (http_exception 401 "请求时间戳已过期（±5min）")
      else ok tt
]

-- `require_proxy_auth`
unfoldable pub require_proxy_auth : (m : Mongo) → Crypto → ℕ → Request → m.State → Result String
unfolding check_timestamp check_client
require_proxy_auth m k now req db =
    let api_key = lookup_or_empty "x-proxy-api-key" req.headers in
    let timestamp = lookup_or_empty "x-proxy-timestamp" req.headers in
    let signature = lookup_or_empty "x-proxy-signature" req.headers in
    if is_empty api_key || is_empty timestamp || is_empty signature
    then raise
        (http_exception 401 "缺少鉴权 Headers: X-Proxy-Api-Key, X-Proxy-Timestamp, X-Proxy-Signature")
    else do
      fresh ← check_timestamp now timestamp
      client ← m.find_one db "proxy_clients" (where_eq "api_key" (str api_key))
      check_client k req timestamp signature client
