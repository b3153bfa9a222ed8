-- ===== src/Proxy/RateLimit.antt =====
-- proxy-server/app/middleware.py, `RateLimitMiddleware`: at most so many requests a minute for each
-- client. Times are seconds of the wall clock.
pub mod Window
use open_yzj.Prelude.{
  Bool, Option, Result, String, [], concat, decimal, false, if◌then◌else◌, is_empty, key_error, ltb,
  none, not, ok, raise, some, starts_with, true, type_error, ℕ, ◌%◌, ◌*◌, ◌-◌, ◌/◌, ◌>>=◌, ◌||◌,
  ◌∷◌,
}
use open_yzj.Value.{Fields, Value, as_number, bool, contains, end, field, get, int, num, str, ◌or◌}
use open_yzj.Mongo.{Mongo, Query, Update, no_update, where_eq}
use open_yzj.Http.{Request, lookup_or_empty}
use open_yzj.Proxy.Auth.{text_id}

-- The request goes on to `call_next`, or is answered 429 with `Retry-After`.
pub data Decision : Type 0 where
  pass_on : Decision
  too_many : ℕ → Decision

-- `count > limit`
unfoldable pub exceeds : ℕ → Value → Result Bool
exceeds count (int n) = ok (ltb n count)
exceeds count (num x) = ok (x.is_below count)
exceeds count (bool true) = ok (ltb 1 count)
exceeds count (bool false) = ok (ltb 0 count)
exceeds count _ = raise type_error

-- `f"{caller_id}:{window_start}"`
unfoldable pub counter_id : String → ℕ → String
counter_id caller now = concat caller (concat ":" (decimal (now / 60 * 60)))

abbrev pub counter_query : String → ℕ → Query
counter_query caller now = where_eq "_id" (str (counter_id caller now))

abbrev pub counter_update : ℕ → Update
counter_update now = record no_update {
  set_on_insert = field "created_at" (int now) end;
  inc = ("count", 1) ∷ [];
}

-- `result["count"] if result else 1`
abbrev pub count_of : Option Fields → ℕ
count_of none = 1
count_of (some d) = as_number (get "count" d)

unfoldable pub retry_after : ℕ → ℕ
retry_after later = 60 - later % 60

unfoldable pub decide : ℕ → Value → Option Fields → Result Decision
unfolding exceeds retry_after
decide later limit counter = do
  over ← exceeds (count_of counter) limit
  ok (if over then too_many (retry_after later) else pass_on)

module _ (m : Mongo) (default_limit : ℕ) where
  -- from the client's document on; `now` and `later` are the two readings of the clock
  unfoldable pub count_request :
      ℕ → ℕ → Fields → Result (Option Fields) × m.State → Result Decision × m.State
  unfolding decide
  count_request now later client (ok counter, db) =
      (decide later (get "rate_limit" client or int default_limit) counter, db)
  count_request now later client (raise e, db) = (raise e, db)

  unfoldable pub limit_client : ℕ → ℕ → Option Fields → m.State → Result Decision × m.State
  unfolding count_request
  limit_client now later none db = (ok pass_on, db)
  limit_client now later (some client) db =
      if contains "client_id" client
      then count_request now later client (
          m.find_one_and_update db "proxy_rate_counters" (counter_query (text_id client) now)
            (counter_update now) true)
      else (raise key_error, db)

  -- `dispatch`
  unfoldable pub dispatch : ℕ → ℕ → Request → m.State → Result Decision × m.State
  unfolding limit_client
  dispatch now later req db =
      let api_key = lookup_or_empty "x-proxy-api-key" req.headers in
      if not (starts_with req.path "/api/proxy/v1/") || is_empty api_key
      then (ok pass_on, db)
      else elim (m.find_one db "proxy_clients" (where_eq "api_key" (str api_key))) [
        | ok client ↦ limit_client now later client db
        | raise e ↦ (raise e, db)
      ]
