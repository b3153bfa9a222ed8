-- ===== src/Robot/Admin/Enrolment.antt =====
-- From server/app/api/admin.py to server/app/api/yunzhijia.py: the messages of a robot that was
-- created are handled.
use open_yzj.Prelude.{
  List, Option, Result, String, ap, attribute_error, eq_refl, false, is_empty, none, ok, raise,
  refl, some, sym, ℕ, ◌==◌, ◌∙◌, ◌≡◌,
}
use open_yzj.Prelude.Effect.{ok_pair, raise_pair}
use open_yzj.Secrets.{
  Fernet, Recovers, decrypt_secret, decrypt_secret-encrypt_secret, encrypt_secret,
}
use open_yzj.Value.{Fields, Value, contains, get, put, str}
use open_yzj.Value.Methods.{texts}
use open_yzj.Mongo.{IsDocumented, Mongo, where_eq}
use open_yzj.Mongo.Keyed.{append-last, by_key, holds, looked_up}
use open_yzj.Robot.Message.{Payload, ResponseData, Task, test_robot_id}
use open_yzj.Robot.Signature.{Algo, algo_name, calc_sign, verify_sign}
use open_yzj.Robot.Signature.Acceptance.{IsAscii, verify_sign-calc_sign}
use open_yzj.Robot.Secret.{Vault, resolve_robot_code, robot_query, secret_in}
use open_yzj.Robot.Router.{Handler}
use open_yzj.Robot.Processor.{handle}
use open_yzj.Robot.Webhook.{handled, resolved, storing, webhook, with_secret}
use open_yzj.Robot.Admin.Views.{RobotCreateReq, robot_doc}
use open_yzj.Robot.Admin.Routes.{create_robot}

-- `core/crypto.py`, as the webhook calls it
abbrev pub crypto_vault : Fernet → String → List ℕ → Vault
crypto_vault f app_secret_key nonce = record {
  encrypt_secret = λ v. elim v [
    | str s ↦ ok (str (encrypt_secret f app_secret_key nonce s))
    | _ ↦ raise attribute_error
  ];
  decrypt_secret =
      λ v. elim v [ str s ↦ decrypt_secret f app_secret_key s | _ ↦ raise attribute_error ];
}

module _ (m : Mongo) (encrypt : String → String) (now : ℕ) (req : RobotCreateReq) where
  -- how a creation that returned went
  pub create_robot_inv :
      (s t : m.State) (answer : Fields) (r : Result (Option Fields)) (x : Result Value × m.State)
      → m.find_one s "robots" (where_eq "robot_code" (str req.robot_code)) ≡ r
      → m.insert_one s "robots" (robot_doc now req (encrypt req.app_secret)) ≡ x
      → create_robot m encrypt now req s ≡ (ok answer, t)
      → (id : Value) × (x ≡ (ok id, t))
  unfolding create_robot get
  create_robot_inv s t answer (raise e) x h1 h2 h = absurd (raise_pair (rw h1 at h))
  create_robot_inv s t answer (ok (some d)) x h1 h2 h = absurd (raise_pair (rw h1 at h))
  create_robot_inv s t answer (ok none) (raise e, u) h1 h2 h =
      absurd (raise_pair (rw (h1, h2) at h))
  create_robot_inv s t answer (ok none) (ok id, u) h1 h2 h =
      (id, ap (λ v. (Result.ok id, v)) (sym (ok_pair (rw (h1, h2) at h)).1))

module _ (hmac_b64 : Algo → List ℕ → List ℕ → String) (f : Fernet) (app_secret_key : String)
    (nonce : List ℕ) (req : RobotCreateReq) where
  abbrev sealed : String
  sealed = encrypt_secret f app_secret_key nonce req.app_secret

  abbrev new_robot : ℕ → Value → Fields
  new_robot born id = put "_id" id (robot_doc born req sealed)

  -- A message to the robot of the request, which is no test robot and was given an id and a code.
  pub record IsAddressed (p : Payload) : Type 0 where
    pub to_robot : req.robot_id ≡ some p.robot_id
    pub real : (p.robot_id == test_robot_id) ≡ false
    pub code_given : is_empty req.robot_code ≡ false
    pub not_blank : is_empty sealed ≡ false
    pub back : Recovers f app_secret_key nonce req.app_secret
    pub ascii : IsAscii hmac_b64 req.app_secret p

  module _ (m : Mongo) (p : Payload) (to : IsAddressed p) (t : m.State) (born : ℕ) (id : Value)
      (look : m.find_one t "robots" (robot_query p.robot_id) ≡ ok (some (new_robot born id))) where
    abbrev v : Vault
    v = crypto_vault f app_secret_key nonce

    resolves :
        (url_robot_code : String)
        → resolve_robot_code m v p.robot_id url_robot_code t
          ≡ ok (req.robot_code, texts req.allowed_handlers)
    unfolding resolve_robot_code get put contains
    resolves url_robot_code = rw (to.real, look, to.code_given) refl

    module _ {W : Type 0}
        (run : Handler
          → Payload
          → String
          → String
          → m.State × W
          → Result ResponseData × (List Task × (m.State × W)))
        (env : String) where
      with_its_secret :
          (now : ℕ) (sign session_id robot_code : String) (allowed : Value) (w : W)
          → resolved m v hmac_b64 run env now p sign session_id robot_code allowed t w
            ≡ with_secret m v hmac_b64 run env p sign session_id robot_code allowed w
                (ok (str req.app_secret), t)
      unfolding resolved secret_in get put
      with_its_secret now sign session_id robot_code allowed w =
          rw
            (
              to.real,
              look,
              to.not_blank,
              decrypt_secret-encrypt_secret f app_secret_key nonce req.app_secret to.back,
            )
            refl

      signed_by :
          (sign session_id robot_code : String) (allowed : Value) (w : W) (algo : Algo)
          → verify_sign hmac_b64 req.app_secret p sign ≡ ok (some algo)
          → with_secret m v hmac_b64 run env p sign session_id robot_code allowed w
              (ok (str req.app_secret), t)
            ≡ handled
                (storing p robot_code session_id (algo_name algo) false)
                (handle run p session_id robot_code allowed (t, w))
      unfolding with_secret
      signed_by sign session_id robot_code allowed w algo passes = rw passes refl

      handles :
          (now : ℕ) (url_robot_code session_id : String) (algo : Algo) (w : W)
          → (found : Algo) × (webhook m v hmac_b64 run env now url_robot_code p
                (calc_sign hmac_b64 req.app_secret p algo)
                session_id
                t
                w
              ≡ handled
                  (storing p req.robot_code session_id (algo_name found) false)
                  (handle run p session_id req.robot_code (texts req.allowed_handlers) (t, w)))
      unfolding webhook
      handles now url_robot_code session_id algo w =
          let (found, passes) = verify_sign-calc_sign hmac_b64 req.app_secret p algo to.ascii in
          (
            found,
            rw (webhook, resolves url_robot_code)
                (with_its_secret now _ session_id req.robot_code (texts req.allowed_handlers) w
                  ∙ signed_by _ session_id req.robot_code (texts req.allowed_handlers) w found
                      passes),
          )

  named :
      (born : ℕ) (id : Value) (p : Payload)
      → req.robot_id ≡ some p.robot_id
      → get "robotId" (new_robot born id) ≡ str p.robot_id
  unfolding get put
  named born id p e = rw e refl

  -- Once `create_robot` has answered for a robot with a new id that is not the test id and with a
  -- code, the webhook handles each message to that id that `calc_sign` has signed with the secret
  -- of the request by SHA-256 or SHA-1: it returns the two storing tasks and what the handlers give
  -- for the code and the allowed handlers of the request. The database does what its manual says,
  -- the look-up of the robot does not raise, Fernet gives the secret back from a token that is not
  -- empty, and signatures are ASCII.
  pub create_robot-webhook :
      (m : Mongo) (good : IsDocumented m) {W : Type 0}
      (run : Handler
        → Payload
        → String
        → String
        → m.State × W
        → Result ResponseData × (List Task × (m.State × W)))
      (env : String) (born now : ℕ) (s t : m.State) (answer : Fields) (p : Payload)
      (url_robot_code session_id : String) (algo : Algo) (w : W) (look : Option Fields)
      → create_robot m (encrypt_secret f app_secret_key nonce) born req s ≡ (ok answer, t)
      → IsAddressed p
      → by_key "robotId" (good.docs s "robots") p.robot_id ≡ none
      → m.find_one t "robots" (robot_query p.robot_id) ≡ ok look
      → (found : Algo) × (webhook m
            (crypto_vault f app_secret_key nonce)
            hmac_b64
            run
            env
            now
            url_robot_code
            p
            (calc_sign hmac_b64 req.app_secret p algo)
            session_id
            t
            w
          ≡ handled
              (storing p req.robot_code session_id (algo_name found) false)
              (handle run p session_id req.robot_code (texts req.allowed_handlers) (t, w)))
  create_robot-webhook m good run env born now s t answer p url_robot_code session_id algo w look
        made to fresh read =
      let (id, put_in) =
        create_robot_inv m (encrypt_secret f app_secret_key nonce) born req s t answer _ _ refl refl
          made in
      let there : look ≡ some (new_robot born id) =
        sym (looked_up m good t "robots" "robotId" p.robot_id look read)
        ∙ (ap (λ ds. by_key "robotId" ds p.robot_id) (good.insert_one_lem s t "robots" _ id put_in)
            ∙ (append-last (holds "robotId" p.robot_id) (good.docs s "robots") (new_robot born id)
                  fresh
                ∙ rw (named born id p to.to_robot, eq_refl p.robot_id) refl)) in
      handles m p to t born id (read ∙ ap ok there) run env now url_robot_code session_id algo w
