-- ===== src/Proxy/Auth/Soundness.antt =====
-- Who gets through `require_proxy_auth`.
use open_yzj.Prelude.{
  >>=-eq-ok, Bool-cases, List, Option, Option-cases, String, [], false, inl, inr, is_empty,
  le_of_ltb-eq-false, ltb, none, ok, ok-injective, raise-ne-ok, refl, some, starts_with, true, ℕ,
  ◌∷◌, ◌≡◌, ◌≤◌, ◌⊎◌,
}
use open_yzj.Value.{
  Fields, Value, arr, bool, contains, get, int, is_text, null, num, obj, str, truthy,
}
use open_yzj.Value.Methods.{iterate}
use open_yzj.Mongo.{Mongo, where_eq}
use open_yzj.Http.{Request, lookup, lookup_or_empty, or_empty}
use open_yzj.Bytes.{Integer, compare_digest, compare_digest_sound, distance, encode, parse_int}
use open_yzj.Proxy.Auth.{
  Crypto, any_prefix, check_client, check_endpoint, check_signature, check_timestamp,
  require_proxy_auth, secret_of, sign_payload, text_id, timestamp_tolerance,
}

abbrev pub HasPrefix : String → List Value → Type 0
HasPrefix path [] = ⊥
HasPrefix path (str ep ∷ eps) = (starts_with path ep ≡ true) ⊎ HasPrefix path eps
HasPrefix path (_ ∷ eps) = HasPrefix path eps

-- The white list is empty, or holds a prefix of the path.
abbrev pub IsAllowed : Request → Fields → Type 0
IsAllowed req client =
    (truthy (get "allowed_endpoints" client) ≡ false)
    ⊎ ((eps : List Value) × (iterate (get "allowed_endpoints" client) ≡ ok eps)
        × HasPrefix req.path eps)

any_prefix-HasPrefix :
    (path : String) (eps : List Value) → any_prefix path eps ≡ ok true → HasPrefix path eps
unfolding any_prefix
any_prefix-HasPrefix path [] h = cc
any_prefix-HasPrefix path (str ep ∷ eps) h = elim (Bool-cases (starts_with path ep)) [
  | inl e ↦ inl e
  | inr e ↦ inr (any_prefix-HasPrefix path eps (rw e at h))
]
any_prefix-HasPrefix path (null ∷ eps) h = cc
any_prefix-HasPrefix path (bool b ∷ eps) h = cc
any_prefix-HasPrefix path (int n ∷ eps) h = cc
any_prefix-HasPrefix path (num n ∷ eps) h = cc
any_prefix-HasPrefix path (arr vs ∷ eps) h = cc
any_prefix-HasPrefix path (obj d ∷ eps) h = cc

check_endpoint-IsAllowed :
    (req : Request) (client : Fields) → check_endpoint req client ≡ ok tt → IsAllowed req client
unfolding check_endpoint
check_endpoint-IsAllowed req client h =
    elim (Bool-cases (truthy (get "allowed_endpoints" client))) [
      | inr e ↦ inl e
      | inl e ↦
          let (eps, listed, h1) =
            >>=-eq-ok (iterate (get "allowed_endpoints" client)) _ (rw e at h) in
          let (hit, tested, h2) = >>=-eq-ok (any_prefix req.path eps) _ h1 in
          elim (Bool-cases hit) [
            | inl yes_hit ↦
                inr (eps, listed, any_prefix-HasPrefix req.path eps (rw yes_hit at tested))
            | inr no_hit ↦ absurd (raise-ne-ok (rw no_hit at h2))
          ]
    ]

-- Everything that the dependency has checked when it returns an id.
pub record IsAuthentic (m : Mongo) (k : Crypto) (now : ℕ) (req : Request) (db : m.State)
    (id : String) : Type 0 where
  pub api_key : String
  pub timestamp : String
  pub signature : String
  pub ts : Integer
  pub client : Fields
  pub secret : String
  pub sent_key : lookup "x-proxy-api-key" req.headers ≡ some api_key
  pub sent_timestamp : lookup "x-proxy-timestamp" req.headers ≡ some timestamp
  pub sent_signature : lookup "x-proxy-signature" req.headers ≡ some signature
  pub parsed : parse_int timestamp ≡ some ts
  pub fresh : distance now ts ≤ timestamp_tolerance
  pub known : m.find_one db "proxy_clients" (where_eq "api_key" (str api_key)) ≡ ok (some client)
  pub active : is_text "active" (get "status" client) ≡ true
  pub allowed : IsAllowed req client
  pub decrypted : secret_of k client ≡ ok secret
  pub signed : k.hmac_hex (encode secret) (sign_payload req timestamp) ≡ signature
  pub caller : text_id client ≡ id

filled_or_empty : (o : Option String) → is_empty (or_empty o) ≡ false → o ≡ some (or_empty o)
filled_or_empty none h = cc
filled_or_empty (some v) h = refl

check_timestamp_sound :
    (now : ℕ) (s : String)
    → check_timestamp now s ≡ ok tt
    → (ts : Integer) × (parse_int s ≡ some ts) × (distance now ts ≤ timestamp_tolerance)
unfolding check_timestamp
check_timestamp_sound now s h = elim (Option-cases (parse_int s)) [
  | inl e ↦ absurd (raise-ne-ok (rw (e, check_timestamp) at h))
  | inr (ts, e) ↦ elim (Bool-cases (ltb timestamp_tolerance (distance now ts))) [
    | inl late ↦ absurd (raise-ne-ok (rw late at (rw (e, check_timestamp) at h)))
    | inr fresh ↦ (ts, e, le_of_ltb-eq-false timestamp_tolerance (distance now ts) fresh)
  ]
]

check_signature_sound :
    (k : Crypto) (req : Request) (timestamp signature : String) (client : Fields)
    (secret id : String)
    → check_signature k req timestamp signature client secret ≡ ok id
    → (k.hmac_hex (encode secret) (sign_payload req timestamp) ≡ signature) × (text_id client ≡ id)
unfolding check_signature
check_signature_sound k req timestamp signature client secret id h =
    let expected = k.hmac_hex (encode secret) (sign_payload req timestamp) in
    let (same, compared, h1) = >>=-eq-ok (compare_digest expected signature) _ h in
    elim (Bool-cases same) [
      | inr e ↦ absurd (raise-ne-ok (rw e at h1))
      | inl e ↦ elim (Bool-cases (contains "client_id" client)) [
        | inr f ↦ absurd (raise-ne-ok (rw f at (rw e at h1)))
        | inl f ↦ (
          compare_digest_sound expected signature (rw e at compared),
          ok-injective (rw f at (rw e at h1)),
        )
      ]
    ]

module _ (m : Mongo) (k : Crypto) (now : ℕ) (req : Request) (db : m.State) (id : String) where
  api_key : String
  api_key = lookup_or_empty "x-proxy-api-key" req.headers

  timestamp : String
  timestamp = lookup_or_empty "x-proxy-timestamp" req.headers

  signature : String
  signature = lookup_or_empty "x-proxy-signature" req.headers

  check_client_sound :
      (ts : Integer) (found : Option Fields)
      → is_empty api_key ≡ false
      → is_empty timestamp ≡ false
      → is_empty signature ≡ false
      → parse_int timestamp ≡ some ts
      → distance now ts ≤ timestamp_tolerance
      → m.find_one db "proxy_clients" (where_eq "api_key" (str api_key)) ≡ ok found
      → check_client k req timestamp signature found ≡ ok id
      → IsAuthentic m k now req db id
  unfolding check_client api_key timestamp signature
  check_client_sound ts none a b c parsed fresh known h = absurd (raise-ne-ok h)
  check_client_sound ts (some client) a b c parsed fresh known h =
      elim (Bool-cases (is_text "active" (get "status" client))) [
        | inr e ↦ absurd (raise-ne-ok (rw e at h))
        | inl active ↦
            let (_, allowed, h1) = >>=-eq-ok (check_endpoint req client) _ (rw active at h) in
            let (secret, decrypted, h2) = >>=-eq-ok (secret_of k client) _ h1 in
            let (signed, caller) =
              check_signature_sound k req timestamp signature client secret id h2 in
            record {
              api_key = api_key;
              timestamp = timestamp;
              signature = signature;
              ts = ts;
              client = client;
              secret = secret;
              sent_key = filled_or_empty _ a;
              sent_timestamp = filled_or_empty _ b;
              sent_signature = filled_or_empty _ c;
              parsed = parsed;
              fresh = fresh;
              known = known;
              active = active;
              allowed = check_endpoint-IsAllowed req client allowed;
              decrypted = decrypted;
              signed = signed;
              caller = caller;
            }
      ]

  -- When `require_proxy_auth` returns an id, the request carries the three headers; the timestamp
  -- is an integer within the tolerance of the clock; the API key belongs to a stored client that is
  -- active and whose white list, if it has one, holds a prefix of the path; the signature header is
  -- the HMAC of method, path, timestamp and body with the secret of the client; and the id is the
  -- client's.
  pub require_proxy_auth-IsAuthentic :
      require_proxy_auth m k now req db ≡ ok id → IsAuthentic m k now req db id
  unfolding require_proxy_auth api_key timestamp signature
  require_proxy_auth-IsAuthentic h = elim (Bool-cases (is_empty api_key)) [
    | inl e ↦ absurd (raise-ne-ok (rw e at h))
    | inr a ↦ elim (Bool-cases (is_empty timestamp)) [
      | inl e ↦ absurd (raise-ne-ok (rw (a, e) at h))
      | inr b ↦ elim (Bool-cases (is_empty signature)) [
        | inl e ↦ absurd (raise-ne-ok (rw (a, b, e) at h))
        | inr c ↦
            let (_, fresh, h1) = >>=-eq-ok (check_timestamp now timestamp) _ (rw (a, b, c) at h) in
            let (ts, parsed, near) = check_timestamp_sound now timestamp fresh in
            let (found, known, h2) =
              >>=-eq-ok (m.find_one db "proxy_clients" (where_eq "api_key" (str api_key))) _ h1 in
            check_client_sound ts found a b c parsed near known h2
      ]
    ]
  ]
