-- ===== src/Proxy/Service/Admitted.antt =====
-- Whose requests reach the vendor.
use open_yzj.Prelude.{Result, String, inl, inr, ok, raise, refl, ℕ, ◌≡◌, ◌⊎◌}
use open_yzj.Value.{Fields}
use open_yzj.Value.Methods.{Codec}
use open_yzj.Http.{Request}
use open_yzj.Mongo.{Mongo}
use open_yzj.Proxy.Forwarder.Send.{Response}
use open_yzj.Proxy.Auth.{Crypto, require_proxy_auth}
use open_yzj.Proxy.RateLimit.{Decision, dispatch, pass_on, too_many}
use open_yzj.Proxy.Kdcloud.{KeyCache, Settings, Wire}
use open_yzj.Proxy.Kdcloud.Gateway.{Clients}
use open_yzj.Proxy.Auth.Soundness.{IsAuthentic, require_proxy_auth-IsAuthentic}
use open_yzj.Proxy.Service.{Endpoint, Readings, authenticated, passed_on, serve_request}

module _ (m : Mongo) {N : Type 0}
    (post : N → String → String → Fields → Fields → Result Response × N) (c : Codec)
    (conf : Settings) (clients : Clients) (w : Wire) (k : Crypto) (default_limit : ℕ) (t : Readings)
    (req : Request) (request_id : String) (endpoint : Endpoint) where
  -- The limit let the request pass, and it is authentic by what the counting left of the database.
  pub record IsAdmitted (db : m.State) : Type 0 where
    pub counted : m.State
    pub within : dispatch m default_limit t.now t.later req db ≡ (ok pass_on, counted)
    pub client_id : String
    pub authentic : IsAuthentic m k t.auth_now req counted client_id

  authenticated-IsAdmitted :
      (db counted : m.State) (rest : KeyCache × N) (r : Result String)
      → dispatch m default_limit t.now t.later req db ≡ (ok pass_on, counted)
      → require_proxy_auth m k t.auth_now req counted ≡ r
      → ((authenticated m post c conf clients w k default_limit t req request_id endpoint r
            (counted, rest)).1.1
          ≡ rest)
        ⊎ IsAdmitted db
  unfolding authenticated
  authenticated-IsAdmitted db counted rest (raise e) within read = inl refl
  authenticated-IsAdmitted db counted rest (ok client_id) within read = inr (record {
    counted = counted;
    within = within;
    client_id = client_id;
    authentic = require_proxy_auth-IsAuthentic m k t.auth_now req counted client_id read;
  })

  passed_on-IsAdmitted :
      (db : m.State) (rest : KeyCache × N) (x : Result Decision × m.State)
      → dispatch m default_limit t.now t.later req db ≡ x
      → ((passed_on m post c conf clients w k default_limit t req request_id endpoint x rest).1.1
          ≡ rest)
        ⊎ IsAdmitted db
  unfolding passed_on
  passed_on-IsAdmitted db rest (raise e, counted) h = inl refl
  passed_on-IsAdmitted db rest (ok (too_many seconds), counted) h = inl refl
  passed_on-IsAdmitted db rest (ok pass_on, counted) h =
      authenticated-IsAdmitted db counted rest _ h refl

  -- When a request to one of the eight endpoints of the gateway leaves the network or the cache of
  -- the keys otherwise than it found them, the rate limit let it pass, and it is authentic, by the
  -- database that the counting left: it has an id, a fresh timestamp, an active client whose white
  -- list allows the path, and the HMAC with that client's secret.
  pub serve_request-IsAdmitted :
      (db : m.State) (rest : KeyCache × N)
      → ((serve_request m post c conf clients w k default_limit t req request_id endpoint
            (db, rest)).1.1
          ≡ rest)
        ⊎ IsAdmitted db
  unfolding serve_request
  serve_request-IsAdmitted db rest = passed_on-IsAdmitted db rest _ refl
