-- ===== src/Proxy/Tokens/Background/Idle.antt =====
-- A round of the background loop comes before the tokens that it is timed for are due.
use open_yzj.Prelude.{
  Result, String, ap, arith, ltb, ok, refl, some, true, ℕ, ◌*◌, ◌+◌, ◌<◌, ◌∙◌, ◌≡◌, ◌≤◌,
}
use open_yzj.Value.{Fields, get, int, truthy}
use open_yzj.Value.Methods.{Codec}
use open_yzj.Mongo.{Mongo}
use open_yzj.Proxy.Forwarder.Send.{Response}
use open_yzj.Proxy.Kdcloud.{Settings}
use open_yzj.Proxy.Kdcloud.Gateway.{Clients}
use open_yzj.Proxy.Tokens.Grants.{cached_token, token_query}
use open_yzj.Proxy.Tokens.Manager.{ensure_fresh}
use open_yzj.Proxy.Tokens.Background.{Readings, refresh_interval, refresh_round}

-- A token of an environment whose expiry, as the process reads it, lies two hours after the time at
-- which it was granted, not longer ago than the interval of the loop and a minute.
pub record IsRecent (m : Mongo) (c : Codec) (conf : Settings) (env : String) (db : m.State)
    (now : ℕ) : Type 0 where
  pub doc : Fields
  pub found : m.find_one db "kdcloud_tokens" (token_query conf env) ≡ ok (some doc)
  pub given : truthy (get "access_token" doc) ≡ true
  pub granted_at : ℕ
  pub read_expiry : ℕ
  pub expires : get "access_token_expires_at" doc ≡ int read_expiry
  pub reads_as : c.timestamp read_expiry ≡ granted_at + 7200000
  pub recent : now < granted_at + refresh_interval conf * 1000 + 60000

still_good :
    (conf : Settings) (now granted_at : ℕ)
    → conf.proxy_token_refresh_margin + 120 ≤ 7200
    → now < granted_at + refresh_interval conf * 1000 + 60000
    → ltb (now + conf.proxy_token_refresh_margin * 1000) (granted_at + 7200000) ≡ true
unfolding refresh_interval
still_good conf now granted_at small recent = ground arith

module _ (m : Mongo) {N : Type 0}
    (post : N → String → String → Fields → Fields → Result Response × N) (c : Codec)
    (conf : Settings) (clients : Clients)
    (small : conf.proxy_token_refresh_margin + 120 ≤ 7200) where
  ensure_fresh_idle :
      (env : String) (r : Readings) (db : m.State) (n : N)
      → IsRecent m c conf env db r.now
      → ensure_fresh m post c conf clients env r.now r.now2 r.now3 (db, n) ≡ (db, n)
  unfolding ensure_fresh cached_token
  ensure_fresh_idle env r db n k =
      rw
        (k.found, k.given, k.expires, k.reads_as, still_good conf r.now k.granted_at small k.recent)
        refl

  -- A round of the background loop changes nothing and calls nobody, when the stored tokens of both
  -- environments are valid for two hours from when they were granted, as the process reads their
  -- expiry in its timezone, and that is not longer ago than the interval of the loop and a minute;
  -- the margin is at most 7080 seconds.
  pub refresh_round_idle :
      (test prod : Readings) (db : m.State) (n : N)
      → IsRecent m c conf "test" db test.now
      → IsRecent m c conf "prod" db prod.now
      → refresh_round m post c conf clients test prod (db, n) ≡ (db, n)
  unfolding refresh_round
  refresh_round_idle test prod db n a b =
      ap (ensure_fresh m post c conf clients "prod" prod.now prod.now2 prod.now3)
        (ensure_fresh_idle "test" test db n a)
      ∙ ensure_fresh_idle "prod" prod db n b
