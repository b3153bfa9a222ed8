-- ===== src/Proxy/RuntimeConfig.antt =====
-- proxy-server/app/runtime_config.py: the switch of automatic forwarding, in the database, behind a
-- cache of ten seconds. Times are milliseconds of the monotonic clock.
pub mod Freshness
use open_yzj.Prelude.{
  Bool, Option, Result, false, if◌then◌else◌, ltb, none, ok, raise, some, true, ℕ, ◌&&◌, ◌+◌,
}
use open_yzj.Value.{Fields, bool, end, field, get, int, null, obj, str, truthy}
use open_yzj.Mongo.{Mongo, Query, Update, no_update, where_eq}

-- `_cache`: the one entry that it can hold, a value and the time at which it expires
abbrev pub Cache : Type 0
Cache = Option (Bool × ℕ)

-- `_CACHE_TTL`
abbrev pub cache_ttl : ℕ
cache_ttl = 10000

-- `bool(doc.get("auto_forward_enabled")) if doc else False`
abbrev pub enabled_in : Option Fields → Bool
enabled_in none = false
enabled_in (some doc) = truthy (obj doc) && truthy (get "auto_forward_enabled" doc)

abbrev pub settings_query : Query
settings_query = where_eq "_id" (str "forwarding")

abbrev pub switch_update : Bool → ℕ → Update
switch_update enabled stamp = record no_update {
  set = field "auto_forward_enabled" (bool enabled) (field "updated_at" (int stamp) end);
}

module _ (m : Mongo) where
  -- the query in its `try`: off when it fails
  unfoldable pub read_switch : m.State → Bool
  read_switch db = elim (m.find_one db "proxy_settings" settings_query) [
    | ok doc ↦ enabled_in doc
    | raise e ↦ false
  ]

  unfoldable pub refresh : ℕ → m.State → Bool × Cache
  unfolding read_switch
  refresh now db = let enabled = read_switch db in (enabled, some (enabled, now + cache_ttl))

  -- `get_auto_forward_enabled`, with the cache that it leaves
  unfoldable pub get_auto_forward_enabled : ℕ → m.State → Cache → Bool × Cache
  unfolding refresh
  get_auto_forward_enabled now db none = refresh now db
  get_auto_forward_enabled now db (some (enabled, expires)) =
      if ltb now expires then (enabled, some (enabled, expires)) else refresh now db

  -- what follows the write of `set_auto_forward_enabled`
  unfoldable pub after_write : Result ℕ × m.State → Cache → Result (Unit {0}) × m.State × Cache
  after_write (ok n, db) cache = (ok tt, db, none)
  after_write (raise e, db) cache = (raise e, db, cache)

  -- `set_auto_forward_enabled`; the cache is cleared only when the write did not raise
  unfoldable pub set_auto_forward_enabled :
      Bool → ℕ → m.State → Cache → Result (Unit {0}) × m.State × Cache
  unfolding after_write
  set_auto_forward_enabled enabled stamp db cache =
      after_write
        (m.update_one db "proxy_settings" settings_query (switch_update enabled stamp) true) cache

  abbrev config_of : Option Fields → Fields
  config_of doc =
      field "auto_forward_enabled" (bool (enabled_in doc))
        (field "updated_at" (elim doc [ none ↦ null | some d ↦ get "updated_at" d ]) end)

  -- `get_forwarding_config`, which does not use the cache
  unfoldable pub get_forwarding_config : m.State → Fields
  get_forwarding_config db = elim (m.find_one db "proxy_settings" settings_query) [
    | ok doc ↦ config_of doc
    | raise e ↦ config_of none
  ]

  abbrev configured : Result (Unit {0}) × m.State × Cache → Result Fields × m.State × Cache
  configured (ok done, db, cache) = (ok (get_forwarding_config db), db, cache)
  configured (raise e, db, cache) = (raise e, db, cache)

  -- `put_forwarding_config` of proxy-server/app/admin.py
  unfoldable pub put_forwarding_config :
      Bool → ℕ → m.State → Cache → Result Fields × m.State × Cache
  unfolding set_auto_forward_enabled get_forwarding_config
  put_forwarding_config enabled stamp db cache =
      configured (set_auto_forward_enabled enabled stamp db cache)
