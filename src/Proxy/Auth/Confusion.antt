-- ===== src/Proxy/Auth/Confusion.antt =====
-- The signed bytes do not say where the path ends and the timestamp begins.
use open_yzj.Prelude.{
  >>=-congr, Bool-cases, Result, String, ap, append_assoc, concat, false, http_exception,
  if◌then◌else◌, inl, inr, is_empty, key_error, ok, raise, some, sym, ℕ, ◌++◌, ◌>>=◌, ◌||◌, ◌∙◌,
  ◌≡◌,
}
use open_yzj.Value.{Fields, contains, get, is_text, str, truthy}
use open_yzj.Mongo.{Mongo, where_eq}
use open_yzj.Http.{Request, lookup, lookup_or_empty}
use open_yzj.Bytes.{compare_digest, encode, encode-concat, parse_int}
use open_yzj.Proxy.Auth.{
  Crypto, check_client, check_timestamp, method_bytes, require_proxy_auth, secret_of, sign_payload,
  text_id,
}

-- A request with the tail `moved` of its path sent as the head of its timestamp instead.
pub record IsShifted (a b : Request) (moved timestamp : String) : Type 0 where
  pub method : a.method ≡ b.method
  pub body : a.body ≡ b.body
  pub path : a.path ≡ concat b.path moved
  pub key : lookup "x-proxy-api-key" a.headers ≡ lookup "x-proxy-api-key" b.headers
  pub signature : lookup "x-proxy-signature" a.headers ≡ lookup "x-proxy-signature" b.headers
  pub sent : lookup "x-proxy-timestamp" a.headers ≡ some timestamp
  pub resent : lookup "x-proxy-timestamp" b.headers ≡ some (concat moved timestamp)

module _ {a b : Request} {moved timestamp : String} (shifted : IsShifted a b moved timestamp) where
  sign_payload_shifted : sign_payload a timestamp ≡ sign_payload b (concat moved timestamp)
  unfolding sign_payload method_bytes
  sign_payload_shifted =
      rw
        (
          shifted.method,
          shifted.body,
          shifted.path,
          encode-concat b.path moved,
          encode-concat moved timestamp,
        )
        (ap (λ x. method_bytes b ++ x)
          (append_assoc (encode b.path) (encode moved) _
            ∙ ap (λ x. encode b.path ++ x)
                (sym (append_assoc (encode moved) (encode timestamp) b.body))))

  check_client_shifted :
      (k : Crypto) (signature : String) (client : Fields)
      → truthy (get "allowed_endpoints" client) ≡ false
      → check_client k a timestamp signature (some client)
        ≡ check_client k b (concat moved timestamp) signature (some client)
  unfolding check_client
  check_client_shifted k signature client open_list =
      rw open_list (elim (Bool-cases (is_text "active" (get "status" client))) [
        | inr e ↦ rw e
        | inl e ↦ rw e (
            >>=-congr (secret_of k client) _ _ (λ secret _.
              ap
                (λ p. compare_digest (k.hmac_hex (encode secret) p) signature >>= λ same.
                  if same
                  then (if contains "client_id" client
                      then ok (text_id client)
                      else raise key_error)
                  else raise (http_exception 401 "签名验证失败"))
                sign_payload_shifted))
      ])

  check_timestamp_same :
      (now : ℕ)
      → parse_int (concat moved timestamp) ≡ parse_int timestamp
      → check_timestamp now timestamp ≡ check_timestamp now (concat moved timestamp)
  unfolding check_timestamp
  check_timestamp_same now same = rw (same, check_timestamp)

  -- the look-up of the client and what follows it
  abbrev checked_with : (m : Mongo) → Crypto → m.State → Request → String → Result String
  checked_with m k db req ts =
      m.find_one db "proxy_clients"
        (where_eq "api_key" (str (lookup_or_empty "x-proxy-api-key" b.headers)))
      >>= λ client. check_client k req ts (lookup_or_empty "x-proxy-signature" b.headers) client

  checked_shifted :
      (m : Mongo) (k : Crypto) (db : m.State) (client : Fields)
      → m.find_one db "proxy_clients"
          (where_eq "api_key" (str (lookup_or_empty "x-proxy-api-key" b.headers)))
        ≡ ok (some client)
      → truthy (get "allowed_endpoints" client) ≡ false
      → checked_with m k db a timestamp ≡ checked_with m k db b (concat moved timestamp)
  checked_shifted m k db client found open_list =
      rw found
        (check_client_shifted k (lookup_or_empty "x-proxy-signature" b.headers) client open_list)

  -- A request to a shorter path, whose timestamp header begins with what was cut off the path and
  -- still reads as the same integer, is answered by `require_proxy_auth` exactly like the request
  -- that was signed, for a client that is found and has no white list.
  pub require_proxy_auth_shifted :
      (m : Mongo) (k : Crypto) (now : ℕ) (db : m.State) (client : Fields)
      → is_empty timestamp ≡ false
      → is_empty (concat moved timestamp) ≡ false
      → parse_int (concat moved timestamp) ≡ parse_int timestamp
      → m.find_one db "proxy_clients"
          (where_eq "api_key" (str (lookup_or_empty "x-proxy-api-key" b.headers)))
        ≡ ok (some client)
      → truthy (get "allowed_endpoints" client) ≡ false
      → require_proxy_auth m k now a db ≡ require_proxy_auth m k now b db
  unfolding require_proxy_auth
  require_proxy_auth_shifted m k now db client filled refilled same found open_list =
      rw
        (
          shifted.key,
          shifted.signature,
          shifted.sent,
          shifted.resent,
          filled,
          refilled,
          check_timestamp_same now same,
        )
        (ap
          (λ r.
            if is_empty (lookup_or_empty "x-proxy-api-key" b.headers)
              || false
              || is_empty (lookup_or_empty "x-proxy-signature" b.headers)
            then raise (
                http_exception 401
                  "缺少鉴权 Headers: X-Proxy-Api-Key, X-Proxy-Timestamp, X-Proxy-Signature")
            else r)
          (>>=-congr (check_timestamp now (concat moved timestamp))
            (λ _. checked_with m k db a timestamp)
            (λ _. checked_with m k db b (concat moved timestamp))
            (λ fresh _. checked_shifted m k db client found open_list)))
