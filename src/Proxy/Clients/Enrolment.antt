-- ===== src/Proxy/Clients/Enrolment.antt =====
-- From proxy-server/app/admin.py to proxy-server/app/auth.py: a client that was created is let in.

use open_yzj.Value.Methods.{iterate, texts}
use open_yzj.Mongo.Keyed.{append-last, by_key, holds, looked_up}
use open_yzj.Prelude.{
  Bool-cases, List, Option, Result, String, [], any, ap, eq_refl, false, inl, inr, is_empty, ltb,
  map, none, ok, raise, refl, some, starts_with, sym, true, ℕ, ◌++◌, ◌∙◌, ◌∷◌, ◌≡◌, ◌⊎◌,
}
use open_yzj.Prelude.Effect.{ok_pair, raise_pair}
use open_yzj.Bytes.{Integer, distance, encode, is_ascii, parse_int}
use open_yzj.Secrets.{
  Fernet, Recovers, decrypt_secret, decrypt_secret-encrypt_secret, encrypt_secret,
}
use open_yzj.Value.{Fields, Value, contains, get, put, str, to_list-of_list}
use open_yzj.Http.{Request, lookup_or_empty}
use open_yzj.Mongo.{IsDocumented, Mongo, where_eq}
use open_yzj.Proxy.Auth.{
  Crypto, any_prefix, check_client, check_endpoint, check_signature, check_timestamp,
  require_proxy_auth, secret_of, sign_payload, timestamp_tolerance,
}
use open_yzj.Proxy.Clients.{ProxyClientCreateReq, client_doc, create_proxy_client}
use open_yzj.Proxy.Clients.Directory.{new_doc, new_doc-api_key}

-- A request that the owner of the key and the secret has signed, at most five minutes away from
-- `now`, to a path that the white list allows.
pub record IsSigned (hmac_hex : List ℕ → List ℕ → String) (req : ProxyClientCreateReq) (now : ℕ)
    (r : Request) : Type 0 where
  pub timestamp : String
  pub time : Integer
  pub key : lookup_or_empty "x-proxy-api-key" r.headers ≡ req.api_key
  pub key_given : is_empty req.api_key ≡ false
  pub sent : lookup_or_empty "x-proxy-timestamp" r.headers ≡ timestamp
  pub sent_given : is_empty timestamp ≡ false
  pub parses : parse_int timestamp ≡ some time
  pub near : ltb timestamp_tolerance (distance now time) ≡ false
  pub signed :
      lookup_or_empty "x-proxy-signature" r.headers
      ≡ hmac_hex (encode req.api_secret) (sign_payload r timestamp)
  pub ascii : is_ascii (hmac_hex (encode req.api_secret) (sign_payload r timestamp)) ≡ true
  pub hex_given : is_empty (hmac_hex (encode req.api_secret) (sign_payload r timestamp)) ≡ false
  pub allowed :
      (req.allowed_endpoints ≡ []) ⊎ (any (starts_with r.path) req.allowed_endpoints ≡ true)

any_prefix-any :
    (path : String) (eps : List String)
    → any_prefix path (map str eps) ≡ ok (any (starts_with path) eps)
unfolding any_prefix
any_prefix-any path [] = refl
any_prefix-any path (ep ∷ eps) = elim (Bool-cases (starts_with path ep)) [
  | inl e ↦ rw e
  | inr e ↦ rw e (any_prefix-any path eps)
]

listed :
    (r : Request) (client : Fields) (allowed : List String)
    → get "allowed_endpoints" client ≡ texts allowed
    → (allowed ≡ []) ⊎ (any (starts_with r.path) allowed ≡ true)
    → check_endpoint r client ≡ ok tt
unfolding check_endpoint iterate
listed r client [] e h = rw e
listed r client (ep ∷ eps) e (inl h) = cc
listed r client (ep ∷ eps) e (inr h) =
    rw (e, to_list-of_list (map str eps), any_prefix-any r.path (ep ∷ eps), h) refl

module _ (m : Mongo) (encrypt : String → String) (now : ℕ) (req : ProxyClientCreateReq) where
  -- how a creation that returned went
  pub create_proxy_client_inv :
      (s t : m.State) (answer : Fields) (r1 r2 : Result (Option Fields))
      (x : Result Value × m.State)
      → m.find_one s "proxy_clients" (where_eq "api_key" (str req.api_key)) ≡ r1
      → m.find_one s "proxy_clients" (where_eq "client_id" (str req.client_name)) ≡ r2
      → m.insert_one s "proxy_clients" (client_doc now req (encrypt req.api_secret)) ≡ x
      → create_proxy_client m encrypt now req s ≡ (ok answer, t)
      → (id : Value) × (r1 ≡ ok none) × (r2 ≡ ok none) × (x ≡ (ok id, t))
  unfolding create_proxy_client
  create_proxy_client_inv s t answer (raise e) r2 x h1 h2 h3 h = absurd (raise_pair (rw h1 at h))
  create_proxy_client_inv s t answer (ok (some d)) r2 x h1 h2 h3 h =
      absurd (raise_pair (rw h1 at h))
  create_proxy_client_inv s t answer (ok none) (raise e) x h1 h2 h3 h =
      absurd (raise_pair (rw (h1, h2) at h))
  create_proxy_client_inv s t answer (ok none) (ok (some d)) x h1 h2 h3 h =
      absurd (raise_pair (rw (h1, h2) at h))
  create_proxy_client_inv s t answer (ok none) (ok none) (raise e, u) h1 h2 h3 h =
      absurd (raise_pair (rw (h1, h2, h3) at h))
  create_proxy_client_inv s t answer (ok none) (ok none) (ok id, u) h1 h2 h3 h =
      (id, refl, refl, ap (λ v. (Result.ok id, v)) (sym (ok_pair (rw (h1, h2, h3) at h)).1))

module _ (hmac_hex : List ℕ → List ℕ → String) (f : Fernet) (app_secret_key : String)
    (nonce : List ℕ) (req : ProxyClientCreateReq) where
  abbrev pub crypto : Crypto
  crypto = record { hmac_hex = hmac_hex; decrypt = decrypt_secret f app_secret_key }

  abbrev doc : ℕ → Value → Fields
  doc born id = new_doc (encrypt_secret f app_secret_key nonce) born id req

  module _ (now born : ℕ) (id : Value) (r : Request) (signed : IsSigned hmac_hex req now r)
      (back : Recovers f app_secret_key nonce req.api_secret) where
    on_time : check_timestamp now signed.timestamp ≡ ok tt
    unfolding check_timestamp
    on_time = rw (signed.parses, check_timestamp, signed.near) refl

    endpoint_allowed : check_endpoint r (doc born id) ≡ ok tt
    unfolding get put
    endpoint_allowed = listed r (doc born id) req.allowed_endpoints refl signed.allowed

    secret_known : secret_of crypto (doc born id) ≡ ok req.api_secret
    unfolding secret_of get put
    secret_known =
        rw (secret_of, decrypt_secret-encrypt_secret f app_secret_key nonce req.api_secret back)
          refl

    signature_right :
        check_signature crypto r signed.timestamp
          (hmac_hex (encode req.api_secret) (sign_payload r signed.timestamp))
          (doc born id)
          req.api_secret
        ≡ ok req.client_name
    unfolding check_signature get put contains
    signature_right = rw (signed.ascii, eq_refl _) refl

    let_in :
        check_client crypto r signed.timestamp
          (hmac_hex (encode req.api_secret) (sign_payload r signed.timestamp))
          (some (doc born id))
        ≡ ok req.client_name
    unfolding check_client get put
    let_in = rw (endpoint_allowed, secret_known) signature_right

  by_new_key :
      (m : Mongo) (good : IsDocumented m) (born : ℕ) (s : m.State) (id : Value)
      → by_key "api_key" (good.docs s "proxy_clients") req.api_key ≡ none
      → by_key "api_key" (good.docs s "proxy_clients" ++ doc born id ∷ []) req.api_key
        ≡ some (doc born id)
  by_new_key m good born s id free =
      append-last (holds "api_key" req.api_key) (good.docs s "proxy_clients") (doc born id) free
      ∙ rw
          (new_doc-api_key (encrypt_secret f app_secret_key nonce) born id req, eq_refl req.api_key)
          refl

  -- Once `create_proxy_client` has answered, `require_proxy_auth` lets in each request that carries
  -- the new API key, an integer timestamp within the tolerance, and the HMAC of the request with
  -- the secret that the client was created with, on a path that the white list allows, and returns
  -- the name of the client. The database does what its manual says, the look-up by the key does not
  -- raise, and Fernet gives the secret back.
  pub create_proxy_client-require_proxy_auth :
      (m : Mongo) (good : IsDocumented m) (born now : ℕ) (s t : m.State) (answer : Fields)
      (r : Request) (found : Option Fields)
      → create_proxy_client m (encrypt_secret f app_secret_key nonce) born req s ≡ (ok answer, t)
      → IsSigned hmac_hex req now r
      → Recovers f app_secret_key nonce req.api_secret
      → m.find_one t "proxy_clients" (where_eq "api_key" (str req.api_key)) ≡ ok found
      → require_proxy_auth m crypto now r t ≡ ok req.client_name
  unfolding require_proxy_auth
  create_proxy_client-require_proxy_auth m good born now s t answer r found made signed back look =
      let encrypt = encrypt_secret f app_secret_key nonce in
      let (id, free, named, put_in) =
        create_proxy_client_inv m encrypt born req s t answer _ _ _ refl refl refl made in
      let there : found ≡ some (doc born id) =
        sym (looked_up m good t "proxy_clients" "api_key" req.api_key found look)
        ∙ (ap (λ ds. by_key "api_key" ds req.api_key)
              (good.insert_one_lem s t "proxy_clients" _ id put_in)
            ∙ by_new_key m good born s id
                (looked_up m good s "proxy_clients" "api_key" req.api_key none free)) in
      rw
        (
          signed.key,
          signed.key_given,
          signed.sent,
          signed.sent_given,
          signed.signed,
          signed.hex_given,
          on_time now born id r signed back,
          look,
          there,
        )
        (let_in now born id r signed back)
