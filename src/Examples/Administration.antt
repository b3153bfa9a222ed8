-- ===== src/Examples/Administration.antt =====
-- server/app/api/admin.py and proxy-server/app/token_manager.py at concrete inputs: robots that are
-- created and changed, and the tokens of two environments.

use open_yzj.Proxy.Tokens.Background.{Readings, refresh_interval, refresh_round}
use open_yzj.Proxy.Tokens.Background.Idle.{IsRecent, refresh_round_idle}
use open_yzj.Proxy.Tokens.Callers.{answer_all, comes, do_full_refresh-answer_all, waited}
use open_yzj.Prelude.{
  Option, Result, String, [], arith, false, if◌then◌else◌, map, none, ok, raise, refl, rstrip, some,
  ℕ, ◌==◌, ◌∷◌, ◌≡◌,
}
use open_yzj.Bytes.{encode}
use open_yzj.Secrets.{encrypt_secret}
use open_yzj.Value.{Fields, Value, contains, end, field, get, int, null, put, str}
use open_yzj.Value.Methods.{texts}
use open_yzj.Mongo.{Mongo, apply_update, find_first, returned, update_docs, upserted}
use open_yzj.Mongo.Keyed.{by_key}
use open_yzj.Mongo.Memory.{Docs, matches_in, memory, memory-IsDocumented}
use open_yzj.Indexes.{account_index, robot_id_index}
use open_yzj.Robot.Signature.{Algo, algo_name, calc_sign, normalize, sha1, sha256}
use open_yzj.Robot.Signature.Acceptance.{IsAscii}
use open_yzj.Robot.Secret.{get_robot_secret, robot_query}
use open_yzj.Robot.Processor.{handle}
use open_yzj.Robot.Webhook.{handled, storing, webhook}
use open_yzj.Robot.Admin.Views.{RobotCreateReq, RobotUpdateReq, robot_doc}
use open_yzj.Robot.Admin.Routes.{create_robot, update_robot}
use open_yzj.Robot.Admin.Enrolment.{IsAddressed, create_robot-webhook, crypto_vault}
use open_yzj.Robot.Admin.Renewed.{update_robot-get_robot_secret}
use open_yzj.Robot.Admin.Duplicates.{create_robot-create_robot_refused}
use open_yzj.Proxy.Kdcloud.Gateway.{
  Clients, get_app_token, get_kdcloud_client, init_kdcloud_client, login,
}
use open_yzj.Proxy.Tokens.Grants.{cached_app_token, granted, token_query, token_update}
use open_yzj.Proxy.Tokens.Manager.{do_full_refresh, get_valid_access_token}
use open_yzj.Proxy.Tokens.Environments.{get_valid_access_token_refused}
use open_yzj.Examples.Samples.{plain}
use open_yzj.Examples.Access.{conf, granting, no_docs}
use open_yzj.Examples.Robots.{answering, hello, hmac}
use open_yzj.Examples.Clients.{fernet, fernet-Recovers}
use open_yzj.Examples.Indexed.{indexed, indexed-Enforces, indexed-IsDocumented}

abbrev seal : String → String
seal = encrypt_secret fernet "app key" []

abbrev new_robot : Option String → String → RobotCreateReq
new_robot robot_id robot_code = record {
  robot_code = robot_code;
  name = "robot";
  app_secret = "secret";
  robot_id = robot_id;
  description = none;
  sid = none;
  company_name = none;
  webhook_push_url = none;
  allowed_handlers = "echo" ∷ [];
}

abbrev robot_stored : Result Fields × Docs
robot_stored = create_robot memory seal 5 (new_robot (some "r1") "R") no_docs

abbrev shown : Result Fields → Fields
shown (ok d) = d
shown (raise e) = end

robot_created :
    create_robot memory seal 5 (new_robot (some "r1") "R") no_docs
    ≡ (ok (shown robot_stored.0), robot_stored.1)
unfolding create_robot find_first get
robot_created = refl

hello-IsAddressed : IsAddressed hmac fernet "app key" [] (new_robot (some "r1") "R") hello
unfolding encode rstrip normalize calc_sign encrypt_secret
hello-IsAddressed = record {
  to_robot = refl;
  real = refl;
  code_given = refl;
  not_blank = refl;
  back = fernet-Recovers;
  ascii = ascii;
}
  where
    ascii : IsAscii hmac "secret" hello
    ascii sha256 = refl
    ascii sha1 = refl

webhook_after_example :
    (found : Algo) × (webhook memory
        (crypto_vault fernet "app key" [])
        hmac
        answering
        "prod"
        9
        "url"
        hello
        (calc_sign hmac "secret" hello sha1)
        "s1"
        robot_stored.1
        0
      ≡ handled
          (storing hello "R" "s1" (algo_name found) false)
          (handle answering hello "s1" "R" (texts ("echo" ∷ [])) (robot_stored.1, 0)))
unfolding find_first
webhook_after_example =
    create_robot-webhook hmac fernet "app key" [] (new_robot (some "r1") "R") memory
      memory-IsDocumented answering "prod" 5 9 no_docs robot_stored.1 (shown robot_stored.0) hello
      "url" "s1" sha1 0 (find_first (matches_in (robot_query "r1")) (robot_stored.1 "robots"))
      robot_created hello-IsAddressed refl refl

abbrev new_secret : RobotUpdateReq
new_secret = record {
  name = none;
  app_secret = some "secret";
  robot_id = none;
  status = none;
  description = none;
  sid = none;
  company_name = none;
  webhook_push_url = none;
  allowed_handlers = none;
}

abbrev robot_changed : Result Fields × Docs
robot_changed = update_robot memory seal 7 "R" new_secret robot_stored.1

robot_updated :
    update_robot memory seal 7 "R" new_secret robot_stored.1
    ≡ (ok (shown robot_changed.0), robot_changed.1)
unfolding create_robot update_robot find_first get apply_update returned contains put
robot_updated = refl

abbrev robot_before : Fields
robot_before = put "_id" null (robot_doc 5 (new_robot (some "r1") "R") (seal "secret"))

robot_by_code : by_key "robot_code" (robot_stored.1 "robots") "R" ≡ some robot_before
unfolding create_robot find_first get put
robot_by_code = refl

robot_by_id : by_key "robotId" (robot_stored.1 "robots") "r1" ≡ some robot_before
unfolding create_robot find_first get put
robot_by_id = refl

update_robot_example :
    get_robot_secret memory (crypto_vault fernet "app key" []) "prod" 9 "r1" robot_changed.1
    ≡ (ok (str "secret"), robot_changed.1)
unfolding encrypt_secret
update_robot_example =
    update_robot-get_robot_secret fernet "app key" [] "R" new_secret "secret" refl refl memory
      memory-IsDocumented "prod" "r1" robot_before robot_stored.1 robot_changed.1 7 9
      (shown robot_changed.0)
      (find_first (matches_in (robot_query "r1")) (robot_changed.1 "robots")) robot_updated
      robot_by_code robot_by_id refl refl fernet-Recovers refl

abbrev by_robot_id : Mongo
by_robot_id = indexed "robots" robot_id_index

abbrev unnamed_stored : Result Fields × Docs
unnamed_stored = create_robot by_robot_id seal 5 (new_robot none "R") no_docs

unnamed_created :
    create_robot by_robot_id seal 5 (new_robot none "R") no_docs
    ≡ (ok (shown unnamed_stored.0), unnamed_stored.1)
unfolding create_robot find_first get
unnamed_created = refl

create_robot_refused_example : ¬ (
    create_robot by_robot_id seal 6 (new_robot none "S") unnamed_stored.1
    ≡ (ok end, unnamed_stored.1))
create_robot_refused_example =
    create_robot-create_robot_refused by_robot_id (indexed-IsDocumented "robots" robot_id_index)
      (indexed-Enforces "robots" robot_id_index) seal seal 5 6 (new_robot none "R")
      (new_robot none "S") no_docs unnamed_stored.1 unnamed_stored.1 (shown unnamed_stored.0) end
      unnamed_created refl refl

-- the first renewal for the test environment
abbrev clients : Clients
clients = init_kdcloud_client conf "test"

abbrev by_account : Mongo
by_account = indexed "kdcloud_tokens" account_index

abbrev token_stored : Result Value × (Docs × ℕ)
token_stored = do_full_refresh by_account granting plain conf clients "test" 7 (no_docs, 0)

token_renewed :
    do_full_refresh by_account granting plain conf clients "test" 7 (no_docs, 0)
    ≡ (ok (str "T"), token_stored.1)
unfolding do_full_refresh get contains find_first get_kdcloud_client cached_app_token get_app_token
    granted login
token_renewed = refl

nothing_for_prod :
    by_account.find_one token_stored.1.0 "kdcloud_tokens" (token_query conf "prod") ≡ ok none
unfolding do_full_refresh get contains find_first get_kdcloud_client cached_app_token get_app_token
    granted login upserted apply_update put update_docs
nothing_for_prod = refl

prod_refused_example : ¬ (
    get_valid_access_token by_account granting plain conf clients "prod" 8 8 8 token_stored.1
    ≡ (ok (str "T"), token_stored.1))
prod_refused_example =
    get_valid_access_token_refused by_account granting plain conf clients "test" "prod"
      (indexed-IsDocumented "kdcloud_tokens" account_index)
      (indexed-Enforces "kdcloud_tokens" account_index) 7 (no_docs, 0) token_stored.1 (str "T")
      token_renewed nothing_for_prod 8 8 8 token_stored.1 (str "T")

abbrev token_doc : Fields
token_doc =
    upserted (token_query conf "test")
      (token_update conf "test" 7 (str "A", int 9000000) (str "T", int 9000000))

token_found :
    by_account.find_one token_stored.1.0 "kdcloud_tokens" (token_query conf "test")
    ≡ ok (some token_doc)
unfolding do_full_refresh get contains find_first get_kdcloud_client cached_app_token get_app_token
    granted login upserted apply_update put update_docs
token_found = refl

abbrev at_100 : Readings
at_100 = record { now = 100; now2 = 101; now3 = 102 }

token_kept_example :
    answer_all by_account granting plain conf clients "test"
      (comes at_100 ∷ waited at_100 ∷ comes at_100 ∷ [])
      token_stored.1
    ≡ (
      map (λ caller. ok (str "T")) (comes at_100 ∷ waited at_100 ∷ comes at_100 ∷ []),
      token_stored.1,
    )
unfolding get upserted apply_update put
token_kept_example =
    do_full_refresh-answer_all by_account granting plain conf clients "test"
      (indexed-IsDocumented "kdcloud_tokens" account_index) 7 (no_docs, 0) token_stored.1 (str "T")
      token_renewed token_doc token_found refl (comes at_100 ∷ waited at_100 ∷ comes at_100 ∷ [])
      (refl, (refl, (refl, tt)))

-- the tokens of both environments, granted at the same time
abbrev kept_token : String → Fields
kept_token env = field "account_id" (str "acc") (
    field "env" (str env)
      (field "access_token" (str "T") (field "access_token_expires_at" (int 7200007) end)))

abbrev both_tokens : Docs
both_tokens k = if k == "kdcloud_tokens" then kept_token "test" ∷ kept_token "prod" ∷ [] else []

-- the round after the interval, 6540 seconds
abbrev next_round : Readings
next_round = record { now = 6540009; now2 = 6540010; now3 = 6540011 }

test-IsRecent : IsRecent memory plain conf "test" both_tokens 6540009
unfolding find_first get refresh_interval
test-IsRecent = record {
  doc = kept_token "test";
  found = refl;
  given = refl;
  granted_at = 7;
  read_expiry = 7200007;
  expires = refl;
  reads_as = refl;
  recent = omega arith;
}

prod-IsRecent : IsRecent memory plain conf "prod" both_tokens 6540009
unfolding find_first get refresh_interval
prod-IsRecent = record {
  doc = kept_token "prod";
  found = refl;
  given = refl;
  granted_at = 7;
  read_expiry = 7200007;
  expires = refl;
  reads_as = refl;
  recent = omega arith;
}

refresh_round_example :
    refresh_round memory granting plain conf clients next_round next_round (both_tokens, 0)
    ≡ (both_tokens, 0)
refresh_round_example =
    refresh_round_idle memory granting plain conf clients (omega arith) next_round next_round
      both_tokens 0 test-IsRecent prod-IsRecent
