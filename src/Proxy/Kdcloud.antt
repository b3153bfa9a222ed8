-- ===== src/Proxy/Kdcloud.antt =====
-- proxy-server/app/kdcloud_client.py, encoding: the data of a request and of a response as JSON,
-- encrypted when a key is configured, and base64. The settings are proxy-server/app/config.py.
pub mod RoundTrip
pub mod Gateway
use open_yzj.Prelude.{
  List, Option, Result, String, drop, if◌then◌else◌, is_empty, none, not, null_list, ok, raise,
  some, take, ℕ, ◌&&◌, ◌++◌, ◌==◌, ◌>>=◌,
}
use open_yzj.Bytes.{encode}
use open_yzj.Value.{Value}

pub record Settings : Type 0 where
  pub kdcloud_test_base_url : String
  pub kdcloud_prod_base_url : String
  pub kdcloud_app_id : String
  pub kdcloud_app_secret : String
  pub kdcloud_user : String
  pub kdcloud_account_id : String
  pub kdcloud_language : String
  pub kdcloud_usertype : String
  pub kdcloud_test_tenant_id : String
  pub kdcloud_prod_tenant_id : String
  pub kdcloud_business_system_code : String
  pub kdcloud_aes_key : String
  pub proxy_token_refresh_margin : ℕ

abbrev pub get_tenant_id : Settings → String → String
get_tenant_id conf env =
    if env == "prod" then conf.kdcloud_prod_tenant_id else conf.kdcloud_test_tenant_id

-- `_base_url`
abbrev pub base_url : Settings → String → String
base_url conf env = if env == "prod" then conf.kdcloud_prod_base_url else conf.kdcloud_test_base_url

-- The encodings and the cipher that the client takes from libraries.
pub record Wire : Type 0 where
  -- `json.dumps(v, ensure_ascii=False, separators=(",", ":"))` and `json.loads(s)`
  pub dumps : Value → String
  pub loads : String → Result Value
  pub b64encode : List ℕ → String
  pub b64decode : String → Result (List ℕ)
  -- `b.decode("utf-8")`
  pub decode : List ℕ → Result String
  pub sha1 : List ℕ → List ℕ
  -- `AESGCM(key).encrypt(iv, data, None)` and `AESGCM(key).decrypt(iv, data, None)`
  pub encrypt : List ℕ → List ℕ → List ℕ → List ℕ
  pub decrypt : List ℕ → List ℕ → List ℕ → Result (List ℕ)

-- `_cached_aes_key_raw` and `_cached_aes_key`, set together
abbrev pub KeyCache : Type 0
KeyCache = Option (String × List ℕ)

module _ (w : Wire) where
  -- the key that a text stands for
  abbrev pub key_of : String → List ℕ
  key_of raw = take 16 (w.sha1 (encode raw))

  -- `_derive_aes_key`
  unfoldable pub derive_aes_key : String → KeyCache → List ℕ × KeyCache
  derive_aes_key raw none = (key_of raw, some (raw, key_of raw))
  derive_aes_key raw (some (cached_raw, cached)) =
      if (cached_raw == raw) && not (null_list cached)
      then (cached, some (cached_raw, cached))
      else (key_of raw, some (raw, key_of raw))

  -- `_aes_encrypt`; `iv` is what `secrets.token_bytes(12)` gives
  unfoldable pub aes_encrypt : String → List ℕ → String → KeyCache → List ℕ × KeyCache
  unfolding derive_aes_key
  aes_encrypt raw iv plaintext cache =
      let (key, cache') = derive_aes_key raw cache in
      (iv ++ w.encrypt key iv (encode plaintext), cache')

  -- `_aes_decrypt`
  unfoldable pub aes_decrypt : String → List ℕ → KeyCache → Result String × KeyCache
  unfolding derive_aes_key
  aes_decrypt raw bytes cache =
      let (key, cache') = derive_aes_key raw cache in
      (w.decrypt key (take 12 bytes) (drop 12 bytes) >>= w.decode, cache')

  -- `_encode_data`
  unfoldable pub encode_data : String → List ℕ → Value → KeyCache → String × KeyCache
  unfolding aes_encrypt
  encode_data raw iv payload cache =
      if not (is_empty raw)
      then (let (sealed, cache') = aes_encrypt raw iv (w.dumps payload) cache in
          (w.b64encode sealed, cache'))
      else (w.b64encode (encode (w.dumps payload)), cache)

  decode_raw : String → Result (List ℕ) → KeyCache → Result String × KeyCache
  unfolding aes_decrypt
  decode_raw raw (raise e) cache = (raise e, cache)
  decode_raw raw (ok bytes) cache =
      if not (is_empty raw) then aes_decrypt raw bytes cache else (w.decode bytes, cache)

  -- `_decode_data`
  unfoldable pub decode_data : String → String → KeyCache → Result Value × KeyCache
  unfolding decode_raw
  decode_data raw encoded cache =
      let (json_str, cache') = decode_raw raw (w.b64decode encoded) cache in
      (json_str >>= w.loads, cache')
