-- ===== src/Proxy/Endpoints/Passing.antt =====
-- proxy-server/app/endpoints: invoicing.py, vehicle.py and digital.py. Each endpoint gets a token,
-- makes one call, and answers with the result or with the error.
pub mod Answers
use open_yzj.Prelude.{
  Bool, List, Result, String, [], concat, exc_text, none, ok, raise, some, ℕ, ◌>>=◌, ◌∷◌,
}
use open_yzj.Value.{
  Fields, Items, Value, arr, cons, drop_nulls, end, field, nil, null, obj, put, str,
}
use open_yzj.Value.Methods.{Codec}
use open_yzj.Http.{Request, lookup}
use open_yzj.Mongo.{Mongo}
use open_yzj.Proxy.Forwarder.Send.{Response}
use open_yzj.Proxy.Kdcloud.{KeyCache, Settings, Wire}
use open_yzj.Proxy.Kdcloud.Gateway.{
  Clients, batch_query_digital, create_invoice, issue_vehicle_invoice, query_invoice_apply,
  query_vehicle_info, red_flush_vehicle, revoke_invoice, single_query_digital,
}
use open_yzj.Proxy.Tokens.Manager.{get_valid_access_token}
use open_yzj.Proxy.Endpoints.Bills.{translate_bills}

-- `ProxyResponse`
pub record ProxyResponse : Type 0 where
  pub code : ℕ
  pub content : Value
  pub message : String

-- `_get_env`
abbrev pub get_env : Request → String
get_env req = elim (lookup "x-proxy-env" req.headers) [ none ↦ "test" | some env ↦ env ]

-- the two answers of an endpoint
abbrev pub answer : String → Result Value → ProxyResponse
answer failure (ok v) = record { code = 0; content = v; message = "success" }
answer failure (raise e) = record {
  code = 500;
  content = null;
  message = concat failure (concat ": " (exc_text e));
}

abbrev pub query_dict : List (String × String) → Fields → Fields
query_dict [] d = d
query_dict ((k, v) ∷ more) d = query_dict more (put k (str v) d)

-- The readings of the clock and the nonce of one request.
pub record Moment : Type 0 where
  pub now : ℕ
  pub now2 : ℕ
  pub now3 : ℕ
  pub iv : List ℕ

abbrev pub objects : List Fields → Items
objects [] = nil
objects (d ∷ ds) = cons (obj d) (objects ds)

module _ (m : Mongo) {N : Type 0}
    (post : N → String → String → Fields → Fields → Result Response × N) (c : Codec)
    (conf : Settings) (clients : Clients) (w : Wire) where
  -- the database, the key cache and the network
  abbrev pub Outside : Type 0
  Outside = m.State × (KeyCache × N)

  unfoldable pub called :
      String → m.State → Result Value × (KeyCache × N) → Result ProxyResponse × Outside
  called failure db (r, rest) = (ok (answer failure r), (db, rest))

  unfoldable pub made :
      String
      → m.State
      → KeyCache × N
      → Result (Value → KeyCache × N → Result Value × (KeyCache × N))
      → Value
      → Result ProxyResponse × Outside
  unfolding called
  made failure db s (ok call) token = called failure db (call token s)
  made failure db s (raise e) token = (ok (answer failure (raise e)), (db, s))

  unfoldable pub granted_to :
      String
      → Result (Value → KeyCache × N → Result Value × (KeyCache × N))
      → KeyCache
      → Result Value × (m.State × N)
      → Result ProxyResponse × Outside
  unfolding made
  granted_to failure call cache (ok token, (db, n)) = made failure db (cache, n) call token
  granted_to failure call cache (raise e, (db, n)) = (raise e, (db, (cache, n)))

  -- an endpoint: `failure` is the text of its error, and `call` what its `try` makes of a token,
  -- which may raise before it calls
  unfoldable pub serve :
      String
      → Moment
      → Request
      → Result (Value → KeyCache × N → Result Value × (KeyCache × N))
      → Outside
      → Result ProxyResponse × Outside
  unfolding granted_to
  serve failure at req call (db, (cache, n)) =
      granted_to failure call cache
        (get_valid_access_token m post c conf clients (get_env req) at.now at.now2 at.now3 (db, n))

  module _ (at : Moment) (req : Request) (request_id : String) where
    -- `invoice_create`
    abbrev pub invoice_create : List Fields → Bool → Bool → Outside → Result ProxyResponse × Outside
    invoice_create bills auto_invoice auto_merge = serve "开票申请单生成失败" at req (do
      translated ← translate_bills auto_invoice auto_merge bills
      ok (λ token.
          create_invoice post conf clients w (arr (objects translated)) token request_id
            (get_env req) at.iv))

    -- `invoice_revoke`, of the body less its `requestId`
    abbrev pub invoice_revoke : Fields → Outside → Result ProxyResponse × Outside
    invoice_revoke body = serve "开票申请单撤回失败" at req (
        ok (λ token.
          revoke_invoice post conf clients w (obj body) token request_id (get_env req) at.iv))

    -- `invoice_query`
    abbrev pub invoice_query : String → Outside → Result ProxyResponse × Outside
    invoice_query apply_id = serve "开票申请单查询失败" at req (
        ok (λ token.
          query_invoice_apply post conf clients w
            (obj (query_dict req.query_params (field "serialNo" (str apply_id) end))) token
            request_id (get_env req) at.iv))

    -- `vehicle_info`
    abbrev pub vehicle_info : Fields → Outside → Result ProxyResponse × Outside
    vehicle_info body = serve "机动车信息查询失败" at req (
        ok (λ token.
          query_vehicle_info post conf clients w (obj body) token request_id (get_env req) at.iv))

    -- `vehicle_invoice`
    abbrev pub vehicle_invoice : Fields → Outside → Result ProxyResponse × Outside
    vehicle_invoice body = serve "机动车发票开具失败" at req (
        ok (λ token.
          issue_vehicle_invoice post conf clients w (obj body) token request_id (get_env req)
            at.iv))

    -- `vehicle_red_flush`
    abbrev pub vehicle_red_flush : Fields → Outside → Result ProxyResponse × Outside
    vehicle_red_flush body = serve "机动车发票红冲失败" at req (
        ok (λ token.
          red_flush_vehicle post conf clients w (obj body) token request_id (get_env req) at.iv))

    -- `digital_batch_query`
    abbrev pub digital_batch_query : Fields → Outside → Result ProxyResponse × Outside
    digital_batch_query body = serve "数电票批量查询失败" at req (
        ok (λ token.
          batch_query_digital post conf clients w (obj (drop_nulls body)) token request_id
            (get_env req) at.iv))

    -- `digital_single_query`
    abbrev pub digital_single_query : Fields → Outside → Result ProxyResponse × Outside
    digital_single_query body = serve "数电票单张查询失败" at req (
        ok (λ token.
          single_query_digital post conf clients w (obj (drop_nulls body)) token request_id
            (get_env req) at.iv))
