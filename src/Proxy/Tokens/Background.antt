-- ===== src/Proxy/Tokens/Background.antt =====
-- proxy-server/app/token_manager.py: the start and the rounds of the background loop.
pub mod Idle
use open_yzj.Prelude.{List, Result, String, [], if◌then◌else◌, leb, ℕ, ◌-◌, ◌∷◌}
use open_yzj.Value.{Fields}
use open_yzj.Value.Methods.{Codec}
use open_yzj.Mongo.{Mongo}
use open_yzj.Proxy.Forwarder.Send.{Response}
use open_yzj.Proxy.Kdcloud.{Settings}
use open_yzj.Proxy.Kdcloud.Gateway.{Clients}
use open_yzj.Proxy.Tokens.Manager.{ensure_fresh}

-- the readings of the clock that one call may make
pub record Readings : Type 0 where
  pub now : ℕ
  pub now2 : ℕ
  pub now3 : ℕ

-- `max(60, 7200 - margin - 60)`, in seconds
unfoldable pub refresh_interval : Settings → ℕ
refresh_interval conf =
    let rest = 7200 - conf.proxy_token_refresh_margin - 60 in if leb 60 rest then rest else 60

module _ (m : Mongo) {N : Type 0}
    (post : N → String → String → Fields → Fields → Result Response × N) (c : Codec)
    (conf : Settings) (clients : Clients) where
  -- `ensure_fresh` for the two environments, as in each round of the loop
  unfoldable pub refresh_round : Readings → Readings → m.State × N → m.State × N
  unfolding ensure_fresh
  refresh_round test prod s =
      ensure_fresh m post c conf clients "prod" prod.now prod.now2 prod.now3
        (ensure_fresh m post c conf clients "test" test.now test.now2 test.now3 s)

  -- `init_token_manager`
  abbrev pub init_token_manager : Readings → Readings → m.State × N → m.State × N
  init_token_manager = refresh_round

  -- the rounds of `start_token_refresh_loop`, as far as it has come
  unfoldable pub run_rounds : List (Readings × Readings) → m.State × N → m.State × N
  unfolding refresh_round
  run_rounds [] s = s
  run_rounds ((test, prod) ∷ rounds) s = run_rounds rounds (refresh_round test prod s)
