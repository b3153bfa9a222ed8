-- ===== src/Robot/Webhook.antt =====
-- server/app/api/yunzhijia.py, `webhook`: the entry of every message.
pub mod Authentic
use open_yzj.Prelude.{
  Bool, List, Option, Result, String, [], attribute_error, false, http_exception, if◌then◌else◌,
  none, ok, raise, some, true, ℕ, ◌++◌, ◌==◌, ◌∷◌,
}
use open_yzj.Value.{Value, str}
use open_yzj.Mongo.{Mongo}
use open_yzj.Robot.Message.{
  Payload, ResponseData, Task, save_message, test_robot_id, text_reply, upsert_session,
}
use open_yzj.Robot.Signature.{Algo, algo_name, verify_sign}
use open_yzj.Robot.Secret.{Vault, get_robot_secret, resolve_robot_code}
use open_yzj.Robot.Router.{Handler}
use open_yzj.Robot.Processor.{handle}

abbrev pub greeting : ResponseData
greeting = text_reply "你好，我是机器人，已经准备好为你服务~"

-- the two tasks that store a message
abbrev pub storing : Payload → String → String → String → Bool → List Task
storing p robot_code session_id sign_algo is_test =
    save_message p robot_code session_id (some sign_algo) is_test
    ∷ upsert_session p robot_code session_id
    ∷ []

abbrev pub handled {ℓ} :
    {S : Type ℓ}
    → List Task
    → Result ResponseData × (List Task × S)
    → Result ResponseData × (List Task × S)
handled stored (reply, (tasks, s)) = (reply, (stored ++ tasks, s))

module _ (m : Mongo) (v : Vault) (hmac_b64 : Algo → List ℕ → List ℕ → String) {W : Type 0}
    (run : Handler
      → Payload
      → String
      → String
      → m.State × W
      → Result ResponseData × (List Task × (m.State × W)))
    (env : String) where
  -- the answer, the tasks that run after it when it is sent, and what is left of the database and the world
  abbrev pub Outcome : Type 0
  Outcome = Result ResponseData × (List Task × (m.State × W))

  unfoldable pub verified :
      Payload → String → String → Value → m.State → W → Result (Option Algo) → Outcome
  unfolding handle
  verified p session_id robot_code allowed db w (ok (some algo)) =
      handled (storing p robot_code session_id (algo_name algo) false)
        (handle run p session_id robot_code allowed (db, w))
  verified p session_id robot_code allowed db w (ok none) =
      (raise (http_exception 401 "invalid sign"), ([], (db, w)))
  verified p session_id robot_code allowed db w (raise e) = (raise e, ([], (db, w)))

  -- `verify_sign` of a secret that is no text raises where it is encoded
  unfoldable pub with_secret :
      Payload → String → String → String → Value → W → Result Value × m.State → Outcome
  unfolding verified verify_sign
  with_secret p sign session_id robot_code allowed w (ok (str secret), db) =
      verified p session_id robot_code allowed db w (verify_sign hmac_b64 secret p sign)
  with_secret p sign session_id robot_code allowed w (raise e, db) = (raise e, ([], (db, w)))
  with_secret p sign session_id robot_code allowed w (ok _, db) =
      (raise attribute_error, ([], (db, w)))

  -- what follows the look-up of the robot's code
  unfoldable pub resolved : ℕ → Payload → String → String → String → Value → m.State → W → Outcome
  unfolding with_secret get_robot_secret
  resolved now p sign session_id robot_code allowed db w =
      if p.robot_id == test_robot_id
      then (ok greeting, (storing p robot_code session_id "test-skip" true, (db, w)))
      else with_secret p sign session_id robot_code allowed w
          (get_robot_secret m v env now p.robot_id db)

  -- `webhook`
  unfoldable pub webhook : ℕ → String → Payload → String → String → m.State → W → Outcome
  unfolding resolved resolve_robot_code
  webhook now url_robot_code p sign session_id db w =
      elim (resolve_robot_code m v p.robot_id url_robot_code db) [
        | ok (robot_code, allowed) ↦ resolved now p sign session_id robot_code allowed db w
        | raise e ↦ (raise e, ([], (db, w)))
      ]
