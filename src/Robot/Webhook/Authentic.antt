-- ===== src/Robot/Webhook/Authentic.antt =====
-- That a message is stored and answered only when it is signed, and what passes unsigned.

use open_yzj.Value.{Value, arr, bool, int, null, num, obj, str}
use open_yzj.Robot.Processor.{handle}
use open_yzj.Prelude.{
  Exc, List, Result, Result-cases, String, ap, arith, eq_iff, false, if◌then◌else◌, inl, inr, none,
  ok, raise, raise-ne-ok, refl, some, subst, sym, true, ℕ, ◌++◌, ◌==◌, ◌≡◌, ◌≢◌,
}
use open_yzj.Mongo.{Mongo}
use open_yzj.Robot.Message.{Payload, ResponseData, Task, test_robot_id}
use open_yzj.Robot.Signature.{Algo, algo_name, verify_sign}
use open_yzj.Robot.Signature.Soundness.{IsSignature, verify_sign-Means}
use open_yzj.Robot.Secret.{Vault, get_robot_secret, resolve_robot_code}
use open_yzj.Robot.Router.{Handler}
use open_yzj.Robot.Webhook.{Outcome, greeting, handled, resolved, storing, webhook, with_secret}

eq_false : (a b : String) → a ≢ b → (a == b) ≡ false
eq_false a b h = ground (arith, eq_iff a b)

module _ (m : Mongo) (v : Vault) (hmac_b64 : Algo → List ℕ → List ℕ → String) {W : Type 0}
    (run : Handler
      → Payload
      → String
      → String
      → m.State × W
      → Result ResponseData × (List Task × (m.State × W)))
    (env : String) (now : ℕ) where
  -- The robot's secret is known, and the header is a signature with it by some algorithm; the
  -- message is stored under that algorithm before anything else.
  pub record IsAuthentic (p : Payload) (sign session_id : String) (db : m.State) (tasks : List Task)
      : Type 0 where
    pub secret : String
    pub known : (get_robot_secret m v env now p.robot_id db).0 ≡ ok (str secret)
    pub algo : Algo
    pub signed : IsSignature hmac_b64 secret p sign algo
    pub robot_code : String
    pub later : List Task
    pub stored : tasks ≡ storing p robot_code session_id (algo_name algo) false ++ later

  refused_ne :
      {e : Exc} {reply : ResponseData} {a b : List Task × (m.State × W)}
      → ◌≡◌ {A = Result ResponseData × (List Task × (m.State × W))} (raise e, a) (ok reply, b)
      → ⊥
  refused_ne h = raise-ne-ok (ap (λ (x : Result ResponseData × (List Task × (m.State × W))). x.0) h)

  handled_lem :
      (stored : List Task) (w : Result ResponseData × (List Task × (m.State × W)))
      (reply : ResponseData) (tasks : List Task) (s : m.State × W)
      → handled stored w ≡ (ok reply, (tasks, s))
      → tasks ≡ stored ++ w.1.0
  handled_lem stored (r, (more, u)) reply tasks s h =
      sym (ap (λ (x : Result ResponseData × (List Task × (m.State × W))). x.1.0) h)

  by_secret :
      (p : Payload) (sign session_id robot_code : String) (allowed : Value) (db : m.State) (w : W)
      (x : Result Value × m.State) (reply : ResponseData) (tasks : List Task) (s : m.State × W)
      → get_robot_secret m v env now p.robot_id db ≡ x
      → with_secret m v hmac_b64 run env p sign session_id robot_code allowed w x
        ≡ (ok reply, (tasks, s))
      → IsAuthentic p sign session_id db tasks
  unfolding with_secret
  by_secret p sign session_id robot_code allowed db w (raise e, u) reply tasks s known h =
      absurd (refused_ne h)
  by_secret p sign session_id robot_code allowed db w (ok null, u) reply tasks s known h =
      absurd (refused_ne h)
  by_secret p sign session_id robot_code allowed db w (ok (bool b), u) reply tasks s known h =
      absurd (refused_ne h)
  by_secret p sign session_id robot_code allowed db w (ok (int k), u) reply tasks s known h =
      absurd (refused_ne h)
  by_secret p sign session_id robot_code allowed db w (ok (num k), u) reply tasks s known h =
      absurd (refused_ne h)
  by_secret p sign session_id robot_code allowed db w (ok (arr vs), u) reply tasks s known h =
      absurd (refused_ne h)
  by_secret p sign session_id robot_code allowed db w (ok (obj d), u) reply tasks s known h =
      absurd (refused_ne h)
  by_secret p sign session_id robot_code allowed db w (ok (str secret), u) reply tasks s known h =
      elim (Result-cases (verify_sign hmac_b64 secret p sign)) [
        | inr (e, lost) ↦ absurd (refused_ne (rw lost at h))
        | inl (none, lost) ↦ absurd (refused_ne (rw lost at h))
        | inl (some algo, passes) ↦ record {
          secret = secret;
          known = ap (λ (y : Result Value × m.State). y.0) known;
          algo = algo;
          signed = verify_sign-Means hmac_b64 secret p sign (some algo) passes;
          robot_code = robot_code;
          later = (handle run p session_id robot_code allowed (u, w)).1.0;
          stored =
              handled_lem (storing p robot_code session_id (algo_name algo) false)
                (handle run p session_id robot_code allowed (u, w)) reply tasks s (rw passes at h);
        }
      ]

  not_test :
      (p : Payload) (sign session_id robot_code : String) (allowed : Value) (db : m.State) (w : W)
      (out : Outcome m v hmac_b64 run env)
      → p.robot_id ≢ test_robot_id
      → resolved m v hmac_b64 run env now p sign session_id robot_code allowed db w ≡ out
      → with_secret m v hmac_b64 run env p sign session_id robot_code allowed w
          (get_robot_secret m v env now p.robot_id db)
        ≡ out
  unfolding resolved
  not_test p sign session_id robot_code allowed db w out real h =
      subst
        (λ b.
          (if b
            then (ok greeting, (storing p robot_code session_id "test-skip" true, (db, w)))
            else with_secret m v hmac_b64 run env p sign session_id robot_code allowed w
                (get_robot_secret m v env now p.robot_id db))
          ≡ out)
        (eq_false p.robot_id test_robot_id real) h

  -- When the webhook answers a request whose robot is not the test robot, the robot's secret is
  -- known, the sign header is a signature of the payload with it by SHA-256 or SHA-1, and the tasks
  -- begin with the two that store the message under that algorithm.
  pub webhook-IsAuthentic :
      (url_robot_code : String) (p : Payload) (sign session_id : String) (db : m.State) (w : W)
      (reply : ResponseData) (tasks : List Task) (s : m.State × W)
      → p.robot_id ≢ test_robot_id
      → webhook m v hmac_b64 run env now url_robot_code p sign session_id db w
        ≡ (ok reply, (tasks, s))
      → IsAuthentic p sign session_id db tasks
  unfolding webhook
  webhook-IsAuthentic url_robot_code p sign session_id db w reply tasks s real h =
      elim (Result-cases (resolve_robot_code m v p.robot_id url_robot_code db)) [
        | inr (e, lost) ↦ absurd (refused_ne (rw (webhook, lost) at h))
        | inl ((robot_code, allowed), found) ↦
            by_secret p sign session_id robot_code allowed db w
              (get_robot_secret m v env now p.robot_id db) reply tasks s refl
              (not_test p sign session_id robot_code allowed db w _ real (rw (webhook, found) at h))
      ]
