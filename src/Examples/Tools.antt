-- ===== src/Examples/Tools.antt =====
-- Tests of the clean-up of passes, the queries of callbacks and the admin token.
use open_yzj.Value.{contains, get}
use open_yzj.Prelude.{
  Option, Result, String, [], http_exception, if◌then◌else◌, none, ok, raise, refl, some,
  value_error, ℕ, ◌==◌, ◌∷◌, ◌≡◌,
}
use open_yzj.Bytes.{encode}
use open_yzj.Robot.Signature.{sha1}
use open_yzj.Robot.TestSign.{sign_params, test_params}
use open_yzj.Robot.Passes.{File, cleanup_expired_passes}
use open_yzj.Robot.Admin.Views.{require_admin}
use open_yzj.Proxy.Admin.Events.{EventQuery, event_filter}
use open_yzj.Examples.Samples.{plain}
use open_yzj.Examples.Robots.{hmac}

abbrev day : String → Result ℕ
day s = if s == "2026-01-31" then ok 5 else raise value_error

abbrev query : Option String → EventQuery
query date_to = record {
  endpoint = some "by-invoice";
  serial_no = some "";
  bill_no = none;
  interface_code = none;
  date_from = some "2026-01-31";
  date_to = date_to;
  limit = 50;
  offset = 0;
}

filters :
    (event_filter day (query none)
      ≡ ok (record { equals = ("endpoint", "by-invoice") ∷ []; since = some 5; until = none }))
    × (event_filter day (query (some "soon"))
        ≡ raise (http_exception 400 "invalid date_to: soon (ValueError)"))
unfolding event_filter
filters = (refl, refl)

abbrev file : String → ℕ → File
file name mtime = record { name = name; mtime = mtime }

cleaned :
    cleanup_expired_passes
      (λ f. f.name == "held.png")
      3600001
      (file "old.png" 0 ∷ file "new.png" 1 ∷ file "held.png" 0 ∷ file "old.txt" 0 ∷ [])
    ≡ file "new.png" 1 ∷ file "held.png" 0 ∷ file "old.txt" 0 ∷ []
unfolding cleanup_expired_passes
cleaned = refl

tokens :
    (require_admin "t" "Bearer t" ≡ ok tt)
    × (require_admin "t" "t" ≡ raise (http_exception 401 "invalid admin token"))
unfolding require_admin
tokens = (refl, refl)

-- the signature of the test message is that of the server
test_signed :
    (secret : String)
    → sign_params hmac plain secret test_params sha1
      ≡ ok (
          hmac sha1 (encode secret) (
            encode
              "test-robotId,test-robotName,test-userId,test-userName,1599727083000,test-msgId,你好，你能做什么呢?"))
unfolding sign_params get contains
test_signed secret = refl
