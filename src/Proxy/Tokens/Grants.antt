-- ===== src/Proxy/Tokens/Grants.antt =====
-- proxy-server/app/token_manager.py: what a stored document and an answer of the vendor are good
-- for. Times are milliseconds, as the database keeps them, and a stored datetime is an `int`: the
-- refresh is the only code that writes the collection.

use open_yzj.Prelude.{
  Bool, Option, Result, String, attribute_error, concat, false, if◌then◌else◌, key_error, ltb, none,
  ok, raise, runtime_error, some, type_error, value_error, ℕ, ◌+◌, ◌>>=◌,
}
use open_yzj.Value.{
  Fields, Value, bool, contains, end, field, get, int, null, num, obj, str, truthy,
}
use open_yzj.Value.Methods.{Codec, get_default, get_value, text_of}
use open_yzj.Mongo.{Query, Update, both, no_update, where_eq}
use open_yzj.Proxy.Kdcloud.{Settings}

abbrev pub token_query : Settings → String → Query
token_query conf env =
    both (where_eq "account_id" (str conf.kdcloud_account_id)) (where_eq "env" (str env))

-- `expires_at.timestamp()`; the driver gives a stored datetime back as a naive one in UTC
abbrev pub instant_of : Codec → Value → Result ℕ
instant_of c (int n) = ok (c.timestamp n)
instant_of c _ = raise type_error

-- whether an expiry lies more than `margin` ahead
abbrev pub lasts : Codec → ℕ → ℕ → Value → Result Bool
lasts c margin now null = ok false
lasts c margin now expires_at = do
  expire_ts ← instant_of c expires_at
  ok (ltb (now + margin) expire_ts)

-- the access token of a document, when it lasts
unfoldable pub cached_token : Codec → ℕ → ℕ → Option Fields → Result (Option Value)
cached_token c margin now none = ok none
cached_token c margin now (some doc) =
    if truthy (get "access_token" doc)
    then (do
      good ← lasts c margin now (get "access_token_expires_at" doc)
      ok (if good then some (get "access_token" doc) else none))
    else ok none

-- the app token of a document and its expiry, when it lasts five minutes more
unfoldable pub cached_app_token : Codec → ℕ → Option Fields → Result (Option (Value × Value))
cached_app_token c now none = ok none
cached_app_token c now (some doc) =
    if truthy (get "app_token" doc)
    then (do
      good ← lasts c 300000 now (get "app_token_expires_at" doc)
      ok (if good then some (get "app_token" doc, get "app_token_expires_at" doc) else none))
    else ok none

-- `datetime.fromtimestamp(v / 1000, tz=timezone.utc)`; a number that is no integer from 0 on,
-- which the vendor does not send, counts as out of range
unfoldable pub from_millis : Value → Result Value
from_millis (int n) = if ltb 253402300799999 n then raise value_error else ok (int n)
from_millis (bool b) = ok (int (if b then 1 else 0))
from_millis (num x) = raise value_error
from_millis _ = raise type_error

-- what an answer of the vendor grants under a key: the token and its expiry
unfoldable pub granted : Codec → String → String → Value → Result (Value × Value)
unfolding get_value from_millis
granted c key failure (obj resp) =
    let answer = get_default "data" (obj end) resp in
    (do
      success ← get_value "success" answer
      if truthy success then grant_of answer else refused answer)
  where
    grant_of : Value → Result (Value × Value)
    grant_of (obj d) =
        if contains key d
        then (do
          expires ← from_millis (get_default "expire_time" (int 0) d)
          ok (get key d, expires))
        else raise key_error
    grant_of v = raise attribute_error

    refused : Value → Result (Value × Value)
    refused (obj d) =
        raise (runtime_error (concat failure (text_of c (get_default "error_desc" (obj resp) d))))
    refused v = raise attribute_error
granted c key failure _ = raise attribute_error

abbrev pub token_update : Settings → String → ℕ → Value × Value → Value × Value → Update
token_update conf env now (app_token, app_expires) (access_token, access_expires) =
    record no_update {
      set = field "app_token" app_token (
          field "access_token" access_token (
            field "app_token_expires_at" app_expires
              (field "access_token_expires_at" access_expires (field "updated_at" (int now) end))));
      set_on_insert = field "account_id" (str conf.kdcloud_account_id) (field "env" (str env) end);
    }
