-- ===== src/Proxy/Tokens/Manager.antt =====
-- proxy-server/app/token_manager.py, `TokenManager`: reading and renewing the access token of an
-- environment. The readings of the clock are arguments.
use open_yzj.Prelude.{Exc, Option, Result, String, if◌then◌else◌, none, raise, some, true, ℕ, ◌*◌}
use open_yzj.Prelude.Effect.{Effect, attempt, lift, pure, ◌>>=◌}
use open_yzj.Value.{Fields, Value, get, truthy}
use open_yzj.Value.Methods.{Codec}
use open_yzj.Mongo.{Mongo}
use open_yzj.Proxy.Forwarder.Send.{Response}
use open_yzj.Proxy.Kdcloud.{Settings}
use open_yzj.Proxy.Kdcloud.Gateway.{Clients, get_app_token, login}
use open_yzj.Proxy.Tokens.Grants.{
  cached_app_token, cached_token, granted, token_query, token_update,
}

module _ (m : Mongo) {N : Type 0}
    (post : N → String → String → Fields → Fields → Result Response × N) (c : Codec)
    (conf : Settings) (clients : Clients) (env : String) where
  read_doc : Effect (m.State × N) (Option Fields)
  read_doc (db, n) = (m.find_one db "kdcloud_tokens" (token_query conf env), (db, n))

  call : Effect N Value → Effect (m.State × N) Value
  call f (db, n) = let (r, n') = f n in (r, (db, n'))

  store : ℕ → Value × Value → Value × Value → Effect (m.State × N) ℕ
  store now app access (db, n) =
      let (r, db') =
        m.update_one db "kdcloud_tokens" (token_query conf env)
          (token_update conf env now app access) true in
      (r, (db', n))

  app_token_of : Option (Value × Value) → Effect (m.State × N) (Value × Value)
  unfolding call
  app_token_of (some reused) = pure reused
  app_token_of none = do
    resp ← call (get_app_token post conf clients env)
    lift (granted c "app_token" "获取 app_token 失败: " resp)

  -- the end of `_do_full_refresh`: the login with an app token, and what is stored then
  unfoldable pub renew_access : ℕ → Value × Value → Effect (m.State × N) Value
  unfolding call store
  renew_access now app = do
    resp ← call (login post conf clients app.0 env)
    access ← lift (granted c "access_token" "获取 access_token 失败: " resp)
    stored ← store now app access
    pure access.0

  -- `_do_full_refresh`, as far as its callers use the result
  unfoldable pub do_full_refresh : ℕ → Effect (m.State × N) Value
  unfolding read_doc app_token_of renew_access
  do_full_refresh now = do
    doc ← read_doc
    reused ← lift (cached_app_token c now doc)
    app ← app_token_of reused
    renew_access now app

  -- the old token in place of an error
  abbrev pub fall_back : Option Fields → Exc → Effect (m.State × N) Value
  fall_back none e = lift (raise e)
  fall_back (some doc) e =
      if truthy (get "access_token" doc) then pure (get "access_token" doc) else lift (raise e)

  -- what is done with the lock held; `now2` and `now3` are readings of the clock
  unfoldable pub get_locked : ℕ → ℕ → Effect (m.State × N) Value
  unfolding read_doc do_full_refresh cached_token
  get_locked now2 now3 = do
    doc ← read_doc
    cached ← lift (cached_token c 60000 now2 doc)
    elim cached [ some token ↦ pure token | none ↦ attempt (do_full_refresh now3) (fall_back doc) ]

  -- `get_valid_access_token`
  unfoldable pub get_valid_access_token : ℕ → ℕ → ℕ → Effect (m.State × N) Value
  unfolding read_doc get_locked cached_token
  get_valid_access_token now now2 now3 = do
    doc ← read_doc
    cached ← lift (cached_token c (conf.proxy_token_refresh_margin * 1000) now doc)
    elim cached [ some token ↦ pure token | none ↦ get_locked now2 now3 ]

  -- `ensure_fresh`: what raises is logged
  unfoldable pub ensure_fresh : ℕ → ℕ → ℕ → m.State × N → m.State × N
  unfolding get_valid_access_token
  ensure_fresh now now2 now3 s = (get_valid_access_token now now2 now3 s).1
