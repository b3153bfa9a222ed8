-- ===== src/Robot/Admin/Renewed.antt =====
-- From server/app/api/admin.py to server/app/core/deps.py: the webhook reads the secret that an
-- administrator has set last.
use open_yzj.Robot.Secret.Reading.{get_robot_secret_found}
use open_yzj.Value.Methods.{texts}
use open_yzj.Prelude.{
  List, Option, Result, String, ap, false, is_empty, none, ok, raise, refl, some, sym, ℕ, ◌&&◌,
  ◌==◌, ◌∙◌, ◌≡◌,
}
use open_yzj.Prelude.Effect.{raise_pair}
use open_yzj.Secrets.{Fernet, Recovers, decrypt_secret-encrypt_secret, encrypt_secret}
use open_yzj.Value.{
  Fields, contains, contains-given_field, end, get, get-put_self, given_field, is_text, str,
}
use open_yzj.Mongo.{IsDocumented, Mongo, Update, apply_update, put_all, update_first, where_eq}
use open_yzj.Mongo.Keyed.{by_key, holds, looked_up}
use open_yzj.Mongo.Updates.{
  find_first-update_first_same, get-put_all, get-set_update, matches_text, put_all-given_field,
  update_docs_plain,
}
use open_yzj.Robot.Message.{test_robot_id}
use open_yzj.Robot.Secret.{get_robot_secret, is_non_prod, robot_query, secret_in}
use open_yzj.Robot.Admin.Views.{RobotUpdateReq, robot_update}
use open_yzj.Robot.Admin.Routes.{update_robot}
use open_yzj.Robot.Admin.Enrolment.{crypto_vault}
use mathlib.Core.Option

module _ (f : Fernet) (app_secret_key : String) (nonce : List ℕ) (robot_code : String)
    (req : RobotUpdateReq) (secret : String) (given : req.app_secret ≡ some secret)
    (same_id : req.robot_id ≡ none) where
  abbrev encrypt : String → String
  encrypt = encrypt_secret f app_secret_key nonce

  abbrev change : ℕ → Update
  change now = robot_update now req (Option.map encrypt req.app_secret)

  -- the change sets no id
  keeps_id : (now : ℕ) (d : Fields) → get "robotId" (apply_update (change now) d) ≡ get "robotId" d
  unfolding contains
  keeps_id now d = get-set_update _ "robotId" d (rw same_id (simp contains-given_field))

  set_last :
      (d : Fields)
      → get "appSecret_encrypted" (
          put_all
            (given_field "appSecret_encrypted" str
              (Option.map encrypt req.app_secret)
              (given_field "allowed_handlers" texts req.allowed_handlers end))
            d)
        ≡ str (encrypt secret)
  unfolding put_all contains
  set_last d = rw given (
      get-put_all (given_field "allowed_handlers" texts req.allowed_handlers end)
        "appSecret_encrypted" _ (simp contains-given_field)
      ∙ get-put_self "appSecret_encrypted" (str (encrypt secret)) d)

  -- and the encrypted secret
  sets_secret :
      (now : ℕ) (d : Fields)
      → get "appSecret_encrypted" (apply_update (change now) d) ≡ str (encrypt secret)
  unfolding apply_update put_all
  sets_secret now d =
      put_all-given_field "name" "appSecret_encrypted" str req.name _ (str (encrypt secret))
        (put_all-given_field "robotId" "appSecret_encrypted" str req.robot_id _
          (str (encrypt secret))
          (put_all-given_field "status" "appSecret_encrypted" str req.status _
            (str (encrypt secret))
            (put_all-given_field "description" "appSecret_encrypted" str req.description _
              (str (encrypt secret))
              (put_all-given_field "sid" "appSecret_encrypted" str req.sid _ (str (encrypt secret))
                (put_all-given_field "company_name" "appSecret_encrypted" str req.company_name _
                  (str (encrypt secret))
                  (put_all-given_field "webhook_push_url" "appSecret_encrypted" str
                    req.webhook_push_url _ (str (encrypt secret)) (set_last)))))))
        _

  module _ (m : Mongo) (good : IsDocumented m) (env robot_id : String) (d : Fields) (s t : m.State)
      (now : ℕ) where
    abbrev robots : m.State → List Fields
    robots s = good.docs s "robots"

    -- how an update that returned went
    update_robot_inv :
        (answer : Fields) (x : Result (Option Fields) × m.State)
        → m.find_one_and_update s "robots"
            (where_eq "robot_code" (str robot_code))
            (change now)
            false
          ≡ x
        → update_robot m encrypt now robot_code req s ≡ (ok answer, t)
        → (r : Option Fields) × (x ≡ (ok r, t))
    unfolding update_robot
    update_robot_inv answer (raise e, u) h1 h = absurd (raise_pair (rw h1 at h))
    update_robot_inv answer (ok none, u) h1 h = absurd (raise_pair (rw h1 at h))
    update_robot_inv answer (ok (some r), u) h1 h = (
      some r,
      ap (λ v. (Result.ok (some r), v)) (ap (λ (y : Result Fields × m.State). y.1) (rw h1 at h)),
    )

    reads_it :
        (later : ℕ)
        → is_empty (encrypt secret) ≡ false
        → Recovers f app_secret_key nonce secret
        → secret_in m (crypto_vault f app_secret_key nonce) later (apply_update (change now) d) t
          ≡ (ok (str secret), t)
    unfolding secret_in
    reads_it later filled back =
        rw
          (
            sets_secret now d,
            filled,
            decrypt_secret-encrypt_secret f app_secret_key nonce secret back,
          )
          refl

    -- When `update_robot` has returned for a new secret and no new id, `get_robot_secret` returns
    -- that secret for the id of the robot and changes nothing. The code and the id find the same
    -- document, the id is not the test id outside production, the database does what its manual
    -- says, the second look-up does not raise, and Fernet gives the secret back from a token that
    -- is not empty.
    pub update_robot-get_robot_secret :
        (later : ℕ) (answer : Fields) (look : Option Fields)
        → update_robot m encrypt now robot_code req s ≡ (ok answer, t)
        → by_key "robot_code" (good.docs s "robots") robot_code ≡ some d
        → by_key "robotId" (good.docs s "robots") robot_id ≡ some d
        → ((robot_id == test_robot_id) && is_non_prod env) ≡ false
        → is_empty (encrypt secret) ≡ false
        → Recovers f app_secret_key nonce secret
        → m.find_one t "robots" (robot_query robot_id) ≡ ok look
        → get_robot_secret m (crypto_vault f app_secret_key nonce) env later robot_id t
          ≡ (ok (str secret), t)
    update_robot-get_robot_secret later answer look made by_code by_id real filled back read =
        let (r, put_in) = update_robot_inv answer _ refl made in
        let (after, ret) =
          good.find_one_and_update_lem s t "robots" _ (change now) false r put_in in
        let kept = apply_update (change now) d in
        let left : robots t ≡ update_first (holds "robot_code" robot_code) (change now) (robots s) =
          after
          ∙ (update_docs_plain _ _ _ _
              ∙ ap (λ p. update_first p (change now) (robots s))
                  (matches_text m good "robot_code" robot_code)) in
        let there : look ≡ some kept =
          sym (looked_up m good t "robots" "robotId" robot_id look read)
          ∙ (ap (λ ds. by_key "robotId" ds robot_id) left
              ∙ find_first-update_first_same _ _ _ _ d by_code by_id
                  (ap (is_text robot_id) (keeps_id now d))) in
        get_robot_secret_found m (crypto_vault f app_secret_key nonce) env robot_id real t later
          "appSecret_encrypted" kept _ (read ∙ ap ok there) (rw (sets_secret now d, filled) refl)
          (reads_it later filled back)
