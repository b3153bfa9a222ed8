-- ===== src/Proxy/Endpoints/Passing/Answers.antt =====
-- When an endpoint raises, and when it answers with a success.
use open_yzj.Prelude.{Exc, Result, String, concat, exc_text, ok, raise, refl, ◌≡◌}
use open_yzj.Value.{Fields, Value, null}
use open_yzj.Value.Methods.{Codec}
use open_yzj.Http.{Request}
use open_yzj.Mongo.{Mongo}
use open_yzj.Proxy.Forwarder.Send.{Response}
use open_yzj.Proxy.Kdcloud.{KeyCache, Settings, Wire}
use open_yzj.Proxy.Kdcloud.Gateway.{Clients}
use open_yzj.Proxy.Tokens.Manager.{get_valid_access_token}
use open_yzj.Proxy.Endpoints.Passing.{
  Moment, ProxyResponse, called, get_env, granted_to, made, serve,
}

module _ (m : Mongo) {N : Type 0}
    (post : N → String → String → Fields → Fields → Result Response × N) (c : Codec)
    (conf : Settings) (clients : Clients) (w : Wire) (failure : String) (at : Moment)
    (req : Request) (call : Result (Value → KeyCache × N → Result Value × (KeyCache × N)))
    (db : m.State) (cache : KeyCache) (n : N) where
  -- what the token manager gives
  abbrev pub token : Result Value × (m.State × N)
  token = get_valid_access_token m post c conf clients (get_env req) at.now at.now2 at.now3 (db, n)

  -- `ProxyResponse(content=..., message="success")`, and the answer to an error
  pub record IsSuccess (v : Value) (r : ProxyResponse) : Type 0 where
    pub code : r.code ≡ 0
    pub content : r.content ≡ v
    pub message : r.message ≡ "success"

  pub record IsFailure (e : Exc) (r : ProxyResponse) : Type 0 where
    pub code : r.code ≡ 500
    pub content : r.content ≡ null
    pub message : r.message ≡ concat failure (concat ": " (exc_text e))

  -- How an endpoint ends, and what it leaves of the database, the key cache and the network: no
  -- token, and it raises; a call that is not made, or that raises, and the answer is a failure; or
  -- a call that gives a value, and the answer is a success with it.
  pub data Ending : Result ProxyResponse × (m.State × (KeyCache × N)) → Type 0 where
    no_token : (e : Exc) → token.0 ≡ raise e → Ending (raise e, (token.1.0, (cache, token.1.1)))
    not_made :
        (v : Value) (e : Exc) (r : ProxyResponse)
        → token.0 ≡ ok v
        → call ≡ raise e
        → IsFailure e r
        → Ending (ok r, (token.1.0, (cache, token.1.1)))
    failed :
        (v : Value) (f : Value → KeyCache × N → Result Value × (KeyCache × N)) (e : Exc)
        (r : ProxyResponse) (after : KeyCache × N)
        → token.0 ≡ ok v
        → call ≡ ok f
        → f v (cache, token.1.1) ≡ (raise e, after)
        → IsFailure e r
        → Ending (ok r, (token.1.0, after))
    succeeded :
        (v given : Value) (f : Value → KeyCache × N → Result Value × (KeyCache × N))
        (r : ProxyResponse) (after : KeyCache × N)
        → token.0 ≡ ok v
        → call ≡ ok f
        → f v (cache, token.1.1) ≡ (ok given, after)
        → IsSuccess given r
        → Ending (ok r, (token.1.0, after))

  called-Ending :
      (v : Value) (f : Value → KeyCache × N → Result Value × (KeyCache × N))
      (x : Result Value × (KeyCache × N))
      → token.0 ≡ ok v
      → call ≡ ok f
      → f v (cache, token.1.1) ≡ x
      → Ending (called m post c conf clients w failure token.1.0 x)
  unfolding called
  called-Ending v f (ok given, after) t g h =
      succeeded v given f _ after t g h (record { code = refl; content = refl; message = refl })
  called-Ending v f (raise e, after) t g h =
      failed v f e _ after t g h (record { code = refl; content = refl; message = refl })

  endings :
      (x : Result Value) (g : Result (Value → KeyCache × N → Result Value × (KeyCache × N)))
      → token.0 ≡ x
      → call ≡ g
      → Ending (granted_to m post c conf clients w failure g cache (x, token.1))
  unfolding granted_to made
  endings (raise e) g t h = no_token e t
  endings (ok v) (raise e) t h =
      not_made v e _ t h (record { code = refl; content = refl; message = refl })
  endings (ok v) (ok f) t h = called-Ending v f _ t h refl

  -- An endpoint that passes a request on raises exactly when the token manager does. Otherwise it
  -- answers: with code 500, no content and the text of the error when what it does before the call
  -- raises, which is then not made, or when the call raises; and with code 0, the message "success"
  -- and the value of the call when it gives one. The call is made with the token; it finds the key
  -- cache of the request and the network as the token manager leaves it, and what it leaves of both
  -- is left. The database is left as the token manager leaves it.
  pub serve-Ending : Ending (serve m post c conf clients w failure at req call (db, (cache, n)))
  unfolding serve
  serve-Ending = endings token.0 call refl refl
