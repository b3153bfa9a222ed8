-- ===== src/Proxy/Service.antt =====
-- The requests to the proxy: proxy-server/app/router.py and the endpoints, behind
-- `RateLimitMiddleware` of proxy-server/app/middleware.py and `require_proxy_auth` of
-- proxy-server/app/auth.py. The body is parsed already.
pub mod Admitted
use open_yzj.Prelude.{Bool, List, Result, String, ok, raise, ℕ}
use open_yzj.Value.{Fields}
use open_yzj.Value.Methods.{Codec}
use open_yzj.Http.{Request}
use open_yzj.Mongo.{Mongo}
use open_yzj.Proxy.Forwarder.Send.{Response}
use open_yzj.Proxy.Auth.{Crypto, require_proxy_auth}
use open_yzj.Proxy.RateLimit.{Decision, dispatch, pass_on, too_many}
use open_yzj.Proxy.Kdcloud.{KeyCache, Settings, Wire}
use open_yzj.Proxy.Kdcloud.Gateway.{Clients}
use open_yzj.Proxy.Endpoints.Passing.{
  Moment, ProxyResponse, digital_batch_query, digital_single_query, invoice_create, invoice_query,
  invoice_revoke, serve, vehicle_info, vehicle_invoice, vehicle_red_flush,
}

-- the endpoints that pass a request on, with their bodies
pub data Endpoint : Type 0 where
  creates_invoice : List Fields → Bool → Bool → Endpoint
  revokes_invoice : Fields → Endpoint
  queries_invoice : String → Endpoint
  queries_vehicle : Fields → Endpoint
  issues_vehicle : Fields → Endpoint
  red_flushes : Fields → Endpoint
  queries_batch : Fields → Endpoint
  queries_single : Fields → Endpoint

-- a response: 429 with `Retry-After`, or that of the endpoint
pub data Answer : Type 0 where
  throttled : ℕ → Answer
  replied : ProxyResponse → Answer

-- the readings of the clock: two of the middleware, one of the authentication, those of the endpoint
pub record Readings : Type 0 where
  pub now : ℕ
  pub later : ℕ
  pub auth_now : ℕ
  pub at : Moment

module _ (m : Mongo) {N : Type 0}
    (post : N → String → String → Fields → Fields → Result Response × N) (c : Codec)
    (conf : Settings) (clients : Clients) (w : Wire) (k : Crypto) (default_limit : ℕ) where
  abbrev pub World : Type 0
  World = m.State × (KeyCache × N)

  unfoldable pub run_endpoint :
      Moment → Request → String → Endpoint → World → Result ProxyResponse × World
  unfolding serve
  run_endpoint at req id (creates_invoice bills auto_invoice auto_merge) =
      invoice_create m post c conf clients w at req id bills auto_invoice auto_merge
  run_endpoint at req id (revokes_invoice body) =
      invoice_revoke m post c conf clients w at req id body
  run_endpoint at req id (queries_invoice apply_id) =
      invoice_query m post c conf clients w at req id apply_id
  run_endpoint at req id (queries_vehicle body) =
      vehicle_info m post c conf clients w at req id body
  run_endpoint at req id (issues_vehicle body) =
      vehicle_invoice m post c conf clients w at req id body
  run_endpoint at req id (red_flushes body) =
      vehicle_red_flush m post c conf clients w at req id body
  run_endpoint at req id (queries_batch body) =
      digital_batch_query m post c conf clients w at req id body
  run_endpoint at req id (queries_single body) =
      digital_single_query m post c conf clients w at req id body

  abbrev pub as_answer : Result ProxyResponse × World → Result Answer × World
  as_answer (ok reply, s) = (ok (replied reply), s)
  as_answer (raise e, s) = (raise e, s)

  module _ (t : Readings) (req : Request) (request_id : String) (endpoint : Endpoint) where
    -- `Depends(require_proxy_auth)`
    unfoldable pub authenticated : Result String → World → Result Answer × World
    unfolding run_endpoint
    authenticated (ok client_id) s = as_answer (run_endpoint t.at req request_id endpoint s)
    authenticated (raise e) s = (raise e, s)

    unfoldable pub passed_on : Result Decision × m.State → KeyCache × N → Result Answer × World
    unfolding authenticated require_proxy_auth
    passed_on (ok pass_on, db) rest =
        authenticated (require_proxy_auth m k t.auth_now req db) (db, rest)
    passed_on (ok (too_many seconds), db) rest = (ok (throttled seconds), (db, rest))
    passed_on (raise e, db) rest = (raise e, (db, rest))

    unfoldable pub serve_request : World → Result Answer × World
    unfolding passed_on dispatch
    serve_request (db, rest) = passed_on (dispatch m default_limit t.now t.later req db) rest
