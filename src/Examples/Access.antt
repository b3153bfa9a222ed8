-- ===== src/Examples/Access.antt =====
-- proxy-server/app/auth.py, middleware.py, kdcloud_client.py and token_manager.py at concrete
-- inputs.

use open_yzj.Proxy.Service.{Readings, queries_invoice, serve_request}
use open_yzj.Proxy.Service.Admitted.{IsAdmitted, serve_request-IsAdmitted}
use open_yzj.Prelude.{
  List, Result, String, [], concat, decimal, false, none, ok, refl, some, strip, suc, true, ℕ, ◌++◌,
  ◌-◌, ◌∷◌, ◌≡◌, ◌⊎◌,
}
use open_yzj.Value.{Fields, bool, contains, end, field, get, int, obj, put, str, truthy}
use open_yzj.Bytes.{encode, parse_int}
use open_yzj.Http.{Request, lookup, lookup_or_empty}
use open_yzj.Mongo.{apply_update, find_first, returned, update_docs, where_eq}
use open_yzj.Mongo.Memory.{Docs, memory, memory-IsDocumented}
use open_yzj.Proxy.Auth.{Crypto, require_proxy_auth}
use open_yzj.Proxy.Auth.Soundness.{IsAuthentic, require_proxy_auth-IsAuthentic}
use open_yzj.Proxy.Auth.Confusion.{IsShifted, require_proxy_auth_shifted}
use open_yzj.Proxy.RateLimit.{counter_id, dispatch, pass_on, too_many}
use open_yzj.Proxy.RateLimit.Window.{
  Burst, IsCounted, done, least, passed, passed-Burst, request, value,
}
use open_yzj.Proxy.Kdcloud.{Settings, Wire, decode_data, encode_data, key_of}
use open_yzj.Proxy.Kdcloud.RoundTrip.{IsFaithful, decode_data-encode_data, holds, unset}
use open_yzj.Proxy.Kdcloud.Gateway.{get_app_token, get_kdcloud_client, init_kdcloud_client, login}
use open_yzj.Proxy.Tokens.Grants.{cached_app_token, granted}
use open_yzj.Proxy.Tokens.Manager.{get_valid_access_token}
use open_yzj.Proxy.Tokens.Renewal.{IsServed, get_valid_access_token-IsServed}
use open_yzj.Proxy.Forwarder.Send.{Response}
use open_yzj.Examples.Samples.{client, plain, stored}

abbrev crypto : Crypto
crypto = record { hmac_hex = λ key bytes. "good"; decrypt = λ s. ok "secret" }

abbrev sent_request : String → String → Request
sent_request path timestamp = record {
  method = "POST";
  path = path;
  headers =
      ("x-proxy-api-key", "k1")
      ∷ ("x-proxy-timestamp", timestamp)
      ∷ ("x-proxy-signature", "good")
      ∷ [];
  query_params = [];
  client_host = none;
  body = [];
}

passes :
    require_proxy_auth memory crypto 1010 (sent_request "/api/proxy/v1/x0" "1000") stored ≡ ok "c1"
unfolding require_proxy_auth lookup parse_int strip find_first get contains encode
passes = refl

require_proxy_auth_example :
    IsAuthentic memory crypto 1010 (sent_request "/api/proxy/v1/x0" "1000") stored "c1"
require_proxy_auth_example =
    require_proxy_auth-IsAuthentic memory crypto 1010 (sent_request "/api/proxy/v1/x0" "1000")
      stored "c1" passes

shift :
    IsShifted
      (sent_request "/api/proxy/v1/x0" "1000")
      (sent_request "/api/proxy/v1/x" "01000")
      "0"
      "1000"
unfolding lookup
shift = record {
  method = refl;
  body = refl;
  path = refl;
  key = refl;
  signature = refl;
  sent = refl;
  resent = refl;
}

same_time : parse_int (concat "0" "1000") ≡ parse_int "1000"
unfolding parse_int strip
same_time = refl

client_found :
    memory.find_one stored "proxy_clients" (
      where_eq "api_key"
        (str (lookup_or_empty "x-proxy-api-key" (sent_request "/api/proxy/v1/x" "01000").headers)))
    ≡ ok (some client)
unfolding lookup find_first get
client_found = refl

open_to_all : truthy (get "allowed_endpoints" client) ≡ false
unfolding get
open_to_all = refl

require_proxy_auth_shifted_example :
    require_proxy_auth memory crypto 1010 (sent_request "/api/proxy/v1/x0" "1000") stored
    ≡ require_proxy_auth memory crypto 1010 (sent_request "/api/proxy/v1/x" "01000") stored
require_proxy_auth_shifted_example =
    require_proxy_auth_shifted shift memory crypto 1010 stored client refl refl same_time
      client_found open_to_all

abbrev req : Request
req = sent_request "/api/proxy/v1/x" "1000"

abbrev once : Docs
once = (dispatch memory 5 100 101 req stored).1

abbrev twice : Docs
twice = (dispatch memory 5 110 111 req once).1

abbrev thrice : Docs
thrice = (dispatch memory 5 118 119 req twice).1

stored-IsCounted : IsCounted memory memory-IsDocumented 5 req client 2 stored
unfolding lookup find_first get contains
stored-IsCounted = record { path = refl; key = refl; known = refl; named = refl; limited = refl }

once-IsCounted : IsCounted memory memory-IsDocumented 5 req client 2 once
unfolding lookup find_first get contains dispatch
once-IsCounted = record { path = refl; key = refl; known = refl; named = refl; limited = refl }

twice-IsCounted : IsCounted memory memory-IsDocumented 5 req client 2 twice
unfolding lookup find_first get contains dispatch
twice-IsCounted = record { path = refl; key = refl; known = refl; named = refl; limited = refl }

first_passes : dispatch memory 5 100 101 req stored ≡ (ok pass_on, once)
unfolding lookup find_first get contains dispatch returned put
first_passes = refl

second_passes : dispatch memory 5 110 111 req once ≡ (ok pass_on, twice)
unfolding lookup find_first get contains dispatch returned put update_docs counter_id decimal
    apply_update
second_passes = refl

third_refused : dispatch memory 5 118 119 req twice ≡ (ok (too_many 1), thrice)
unfolding lookup find_first get contains dispatch returned put update_docs counter_id decimal
    apply_update
third_refused = refl

burst :
    Burst memory memory-IsDocumented 5 client 2 100 stored
      (pass_on ∷ pass_on ∷ too_many 1 ∷ [])
      thrice
burst =
    request stored once thrice (pass_on ∷ too_many 1 ∷ []) req 101 pass_on 100 refl stored-IsCounted
      first_passes
      (request once twice thrice (too_many 1 ∷ []) req 111 pass_on 110 refl once-IsCounted
        second_passes
        (request twice thrice thrice [] req 119 (too_many 1) 118 refl twice-IsCounted third_refused
          (done thrice)))

burst_example :
    passed (pass_on ∷ pass_on ∷ too_many 1 ∷ [])
    ≡ least 3 (2 - value memory memory-IsDocumented 5 client 100 stored)
burst_example =
    passed-Burst memory memory-IsDocumented 5 client 2 100 stored thrice
      (pass_on ∷ pass_on ∷ too_many 1 ∷ []) burst

abbrev pub nonce : List ℕ
nonce = 1 ∷ 2 ∷ 3 ∷ 4 ∷ 5 ∷ 6 ∷ 7 ∷ 8 ∷ 9 ∷ 10 ∷ 11 ∷ 12 ∷ []

abbrev pub wire : Wire
wire = record {
  dumps = λ v. "{}";
  loads = λ s. ok (obj end);
  b64encode = λ bs. "sealed";
  b64decode = λ s. ok (nonce ++ 125 ∷ 123 ∷ []);
  decode = λ bs. ok "{}";
  sha1 = λ bs. bs;
  encrypt = λ key iv bs. 125 ∷ 123 ∷ [];
  decrypt = λ key iv bs. ok (123 ∷ 125 ∷ []);
}

wire-IsFaithful : IsFaithful wire "key" nonce (obj end)
unfolding encode
wire-IsFaithful = record { json = refl; text = refl; base64 = refl; cipher = refl }

decode_data_example :
    (decode_data wire "key"
      (encode_data wire "key" nonce (obj end) none).0
      (some ("other", key_of wire "other"))).0
    ≡ ok (obj end)
decode_data_example =
    decode_data-encode_data wire "key" nonce (obj end) wire-IsFaithful none
      (some ("other", key_of wire "other")) refl unset (holds "other")

abbrev pub conf : Settings
conf = record {
  kdcloud_test_base_url = "https://t.example";
  kdcloud_prod_base_url = "https://p.example";
  kdcloud_app_id = "app";
  kdcloud_app_secret = "secret";
  kdcloud_user = "user";
  kdcloud_account_id = "acc";
  kdcloud_language = "en";
  kdcloud_usertype = "UserName";
  kdcloud_test_tenant_id = "t";
  kdcloud_prod_tenant_id = "p";
  kdcloud_business_system_code = "b";
  kdcloud_aes_key = "key";
  proxy_token_refresh_margin = 600;
}

-- a vendor that grants what it is asked for
abbrev pub granting : ℕ → String → String → Fields → Fields → Result Response × ℕ
granting n url path headers body = (
  ok (record {
    status_code = 200;
    json = ok (
        obj (
          field "data"
            (obj (
              field "success" (bool true) (
                field "app_token" (str "A")
                  (field "access_token" (str "T") (field "expire_time" (int 9000000) end)))))
            end));
    text = "";
  }),
  suc n,
)

abbrev pub no_docs : Docs
no_docs k = []

abbrev renewed_state : Docs × ℕ
renewed_state =
    (get_valid_access_token memory granting plain conf (init_kdcloud_client conf "test") "test" 5 6
      7 (no_docs, 0)).1

token_granted :
    get_valid_access_token memory granting plain conf
      (init_kdcloud_client conf "test")
      "test"
      5
      6
      7
      (no_docs, 0)
    ≡ (ok (str "T"), renewed_state)
unfolding get_valid_access_token get contains find_first get_kdcloud_client cached_app_token
    get_app_token granted login
token_granted = refl

get_valid_access_token_example :
    IsServed memory granting plain conf
      (init_kdcloud_client conf "test")
      "test"
      5
      6
      7
      (no_docs, 0)
      (str "T")
      renewed_state
get_valid_access_token_example =
    get_valid_access_token-IsServed memory granting plain conf (init_kdcloud_client conf "test")
      "test" 5 6 7 (no_docs, 0) renewed_state (str "T") token_granted

abbrev times : Readings
times = record {
  now = 100;
  later = 101;
  auth_now = 1010;
  at = record { now = 5; now2 = 6; now3 = 7; iv = nonce };
}

serve_request_example :
    ((serve_request memory granting plain conf
        (init_kdcloud_client conf "test")
        wire
        crypto
        5
        times
        req
        "id"
        (queries_invoice "A-1")
        (stored, (none, 0))).1.1
      ≡ (none, 0))
    ⊎ IsAdmitted memory granting plain conf
        (init_kdcloud_client conf "test")
        wire
        crypto
        5
        times
        req
        "id"
        (queries_invoice "A-1")
        stored
serve_request_example =
    serve_request-IsAdmitted memory granting plain conf (init_kdcloud_client conf "test") wire
      crypto 5 times req "id" (queries_invoice "A-1") stored (none, 0)
