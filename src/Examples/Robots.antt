-- ===== src/Examples/Robots.antt =====
-- server/app at concrete inputs.
use open_yzj.Prelude.{
  List, Result, String, [], eq_iff, false, if◌then◌else◌, lstrip, ok, raise, refl, rstrip, some,
  strip, suc, true-ne-false, value_error, ℕ, ◌==◌, ◌↔◌, ◌∷◌, ◌≡◌, ◌≢◌,
}
use open_yzj.Value.{Fields, arr, cons, contains, end, field, get, nil, str}
use open_yzj.Bytes.{encode}
use open_yzj.Mongo.{find_first}
use open_yzj.Mongo.Memory.{Docs, memory, memory-IsDocumented}
use open_yzj.Robot.Message.{Payload, ResponseData, Task, test_robot_id, text_reply}
use open_yzj.Robot.Signature.{Algo, algo_name, sha1, verify_sign}
use open_yzj.Robot.Signature.Soundness.{IsSignature, verify_sign-Means}
use open_yzj.Robot.Secret.{Vault}
use open_yzj.Robot.Router.{Handler, ai, api, echo, mys4s, route}
use open_yzj.Robot.Router.Commands.{IsFor, route-IsFor}
use open_yzj.Robot.Storage.{upsert_session_in}
use open_yzj.Robot.Storage.Sessions.{IsAdvanced, session_in, upsert_session-IsAdvanced}
use open_yzj.Robot.Processor.{handle, strip_at_mention}
use open_yzj.Robot.Processor.Answers.{IsAnswered, handle-IsAnswered}
use open_yzj.Robot.Webhook.{Outcome, webhook}
use open_yzj.Robot.Webhook.Authentic.{IsAuthentic, webhook-IsAuthentic}

abbrev pub hello : Payload
hello = record {
  kind = record { negative = false; magnitude = 2 };
  robot_id = "r1";
  robot_name = "robot";
  operator_openid = "o1";
  operator_name = "operator";
  time = record { negative = false; magnitude = 1700000000000 };
  msg_id = "m1";
  content = "@robot /AI hello";
}

abbrev pub robots : Docs
robots k =
    if k == "robots"
    then field "_id" (str "1") (
        field "robotId" (str "r1")
          (field "robot_code" (str "R") (field "appSecret_encrypted" (str "sealed") end)))
      ∷ []
    else []

abbrev pub vault : Vault
vault = record { encrypt_secret = λ v. ok (str "sealed"); decrypt_secret = λ v. ok "secret" }

abbrev pub hmac : Algo → List ℕ → List ℕ → String
hmac algo key bytes = algo_name algo

-- a handler that answers, and one that raises
abbrev pub answering :
    Handler → Payload → String → String → Docs × ℕ → Result ResponseData × (List Task × (Docs × ℕ))
answering h p session_id robot_code w = (ok (text_reply "done"), ([], w))

abbrev raising : Handler → Payload → String → String → ℕ → Result ResponseData × (List Task × ℕ)
raising h p session_id robot_code w = (raise value_error, ([], suc w))

by_sha1_example : verify_sign hmac "secret" hello "sha1==" ≡ ok (some sha1)
unfolding verify_sign rstrip encode
by_sha1_example = refl

verify_sign_example : IsSignature hmac "secret" hello "sha1==" sha1
verify_sign_example = verify_sign-Means hmac "secret" hello "sha1==" (some sha1) by_sha1_example

other_robot : ◌≢◌ {A = String} "r1" test_robot_id
other_robot h = absurd (true-ne-false ((eq_iff "r1" test_robot_id).1 h) refl)

abbrev accepted : Outcome memory vault hmac answering "prod"
accepted = webhook memory vault hmac answering "prod" 5 "url" hello "sha256=" "s1" robots 0

answered_ok :
    webhook memory vault hmac answering "prod" 5 "url" hello "sha256=" "s1" robots 0
    ≡ (ok (text_reply "done"), accepted.1)
unfolding webhook find_first get contains encode rstrip strip lstrip
answered_ok = refl

webhook_example :
    IsAuthentic memory vault hmac answering "prod" 5 hello "sha256=" "s1" robots accepted.1.0
webhook_example =
    webhook-IsAuthentic memory vault hmac answering "prod" 5 "url" hello "sha256=" "s1" robots 0
      (text_reply "done") accepted.1.0 accepted.1.1 other_robot answered_ok

handle_example :
    IsAnswered raising hello "s1" "R"
      (str "ai" ∷ str "echo" ∷ [])
      0
      (handle raising hello "s1" "R" (arr (cons (str "ai") (cons (str "echo") nil))) 0)
handle_example =
    handle-IsAnswered raising hello "s1" "R" (cons (str "ai") (cons (str "echo") nil)) 0

route_example : (route "/API: x" ≡ api) ↔ IsFor api "/API: x"
route_example = route-IsFor "/API: x" api

route_tests :
    (route " #AI" ≡ ai)
    × (route "/api x" ≡ api)
    × (route "/apix" ≡ mys4s)
    × (route "/echo" ≡ echo)
    × (strip_at_mention "@robot  /ai hi" ≡ "/ai hi")
unfolding route strip_at_mention
route_tests = (refl, refl, refl, refl, refl)

upsert_session_example :
    (d : Fields) × (session_in memory memory-IsDocumented "s1"
        (upsert_session_in memory 9 hello "R" "s1" robots)
      ≡ some d)
    × IsAdvanced 9 hello "R" (session_in memory memory-IsDocumented "s1" robots) d
upsert_session_example =
    upsert_session-IsAdvanced memory memory-IsDocumented 9 1 hello "R" "s1" robots refl
