-- ===== src/Robot/Handlers/Mys4s/Course.antt =====
-- The course of `MYS4SHandler.handle` in server/app/services/handlers/mys4s_handler.py.
use open_yzj.Robot.Config.{Settings}
use open_yzj.Value.{Fields, Value, get, str, truthy}
use open_yzj.Value.Methods.{Codec, text_of}
use open_yzj.Proxy.Forwarder.Send.{Response}
use open_yzj.Robot.Handlers.Plates.{parse_plate_and_service}
use open_yzj.Robot.Handlers.Mys4s.{
  after_call, format_prompt, logged_text, mys4s_handle, no_sid_reply, reply_to, robot_field, settle,
  with_content, with_plate, with_sid,
}
use open_yzj.Prelude.{
  Bool-cases, Exc, List, Option, Result, String, [], ap, concat, exc_text, false, inl, inr,
  is_empty, none, ok, raise, refl, some, true, ℕ, ◌=?◌, ◌>>=◌, ◌∷◌, ◌≡◌, ◌⊎◌,
}
use open_yzj.Mongo.{Mongo, where_eq}
use open_yzj.Robot.Handlers.PassCard.{call_mys4s_api}
use open_yzj.Robot.Message.{CommandLog, Payload, ResponseData, Task, text_reply, write_command_log}

module _ (m : Mongo) {N : Type 0} (p : Payload) (robot_code : String)
    (post : N → String → Fields → Fields → Result Response × N)
    (hmac_b64 : List ℕ → List ℕ → String) (c : Codec) (qr : Fields → Result String)
    (dumps : Value → String) (conf : Settings) where
  -- what the database says of the robot, which is not asked without a code
  abbrev pub HasStore : m.State → Fields → Type 0
  HasStore db robot =
      (is_empty robot_code ≡ false)
      × (m.find_one db "robots" (where_eq "robot_code" (str robot_code)) ≡ ok (some robot))
      × (truthy (get "sid" robot) ≡ true)

  pub data HasNoStore (db : m.State) : Type 0 where
    no_code : is_empty robot_code ≡ true → HasNoStore db
    no_robot :
        m.find_one db "robots" (where_eq "robot_code" (str robot_code)) ≡ ok none → HasNoStore db
    no_sid :
        (robot : Fields)
        → m.find_one db "robots" (where_eq "robot_code" (str robot_code)) ≡ ok (some robot)
        → truthy (get "sid" robot) ≡ false
        → HasNoStore db

  abbrev pub IsUnread : m.State → Exc → Type 0
  IsUnread db e =
      (is_empty robot_code ≡ false)
      × (m.find_one db "robots" (where_eq "robot_code" (str robot_code)) ≡ raise e)

  abbrev pub reply_of : m.State → String → String → Value → Result ResponseData
  reply_of db car_no service v =
      reply_to m post hmac_b64 c qr dumps conf v car_no service robot_code p.operator_name db

  -- The outcome that a log states of the call's answer: success without an error, with the text of
  -- the reply unless that is a card; or a failure with the error, which the reply names and which
  -- the call or the making of the reply raised.
  pub data Outcome (db : m.State) (car_no service : String) (answer : Result Value)
      (reply : ResponseData) (l : CommandLog) : Type 0 where
    went_well :
        (v : Value)
        → answer ≡ ok v
        → reply_of db car_no service v ≡ ok reply
        → l.status ≡ "success"
        → l.error ≡ none
        → ((reply.kind =? 25) ≡ true) ⊎ (l.response_content ≡ some reply.content)
        → Outcome db car_no service answer reply l
    went_wrong :
        (e : Exc)
        → (answer ≡ raise e)
          ⊎ ((v : Value) × (answer ≡ ok v) × (reply_of db car_no service v ≡ raise e))
        → l.status ≡ "failed"
        → l.error ≡ some (exc_text e)
        → reply ≡ text_reply (concat "调用道闸接口失败：" (exc_text e))
        → l.response_content ≡ some reply.content
        → Outcome db car_no service answer reply l

  -- What a run leaves, by the message and by what the database says of the robot: a prompt without
  -- a plate, a notice without a store, the error of a database that fails, and none of them is
  -- logged; with a plate and a store the call of the gate's API, an answer and one log.
  pub data Course (db : m.State) (n : N)
      : Result ResponseData × (List Task × (m.State × N)) → Type 0 where
    no_plate :
        (parse_plate_and_service p.content).0 ≡ none
        → Course db n (ok (text_reply (format_prompt robot_code)), ([], (db, n)))
    no_store :
        (car_no service : String)
        → parse_plate_and_service p.content ≡ (some car_no, service)
        → HasNoStore db
        → Course db n (ok (text_reply (no_sid_reply robot_code)), ([], (db, n)))
    unread :
        (car_no service : String) (e : Exc)
        → parse_plate_and_service p.content ≡ (some car_no, service)
        → IsUnread db e
        → Course db n (raise e, ([], (db, n)))
    one_log :
        (car_no service : String) (robot : Fields) (reply : ResponseData) (l : CommandLog)
        (answer : Result Value) (n2 : N)
        → parse_plate_and_service p.content ≡ (some car_no, service)
        → HasStore db robot
        → call_mys4s_api post hmac_b64 conf car_no service
            (text_of c (get "sid" robot))
            p.operator_name
            n
          ≡ (answer, n2)
        → Outcome db car_no service answer reply l
        → Course db n (ok reply, (write_command_log l ∷ [], (db, n2)))

  module _ (cost_ms : ℕ) (session_id : String) where
    logged_text-content :
        (granted : String) (reply : ResponseData)
        → ((reply.kind =? 25) ≡ true)
          ⊎ (some (logged_text m post hmac_b64 c qr dumps conf granted reply) ≡ some reply.content)
    logged_text-content granted reply = elim (Bool-cases (reply.kind =? 25)) [
      | inl card ↦ inl card
      | inr plain ↦ inr (rw plain refl)
    ]

    module _ (car_no service : String) (db : m.State) where
      replied-Outcome :
          (v : Value) (r : Result ResponseData)
          → reply_of db car_no service v ≡ r
          → (let x = settle m post hmac_b64 c qr dumps conf p session_id car_no service cost_ms r in
              (reply : ResponseData) × (l : CommandLog) × (x ≡ (ok reply, write_command_log l ∷ []))
              × Outcome db car_no service (ok v) reply l)
      unfolding settle
      replied-Outcome v (ok reply) h =
          (reply, _, refl, went_well v refl h refl refl (logged_text-content _ reply))
      replied-Outcome v (raise e) h =
          (_, _, refl, went_wrong e (inr (v, refl, h)) refl refl refl refl)

      settle-Outcome :
          (answer : Result Value)
          → (let x =
                settle m post hmac_b64 c qr dumps conf p session_id car_no service cost_ms
                  (answer >>= reply_of db car_no service) in
              (reply : ResponseData) × (l : CommandLog) × (x ≡ (ok reply, write_command_log l ∷ []))
              × Outcome db car_no service answer reply l)
      unfolding settle
      settle-Outcome (ok v) = replied-Outcome v (reply_of db car_no service v) refl
      settle-Outcome (raise e) = (_, _, refl, went_wrong e (inl refl) refl refl refl refl)

      module _ (n : N) (parsed : parse_plate_and_service p.content ≡ (some car_no, service)) where
        called-Course :
            (robot : Fields) (x : Result Value × N)
            → HasStore db robot
            → call_mys4s_api post hmac_b64 conf car_no service
                (text_of c (get "sid" robot))
                p.operator_name
                n
              ≡ x
            → Course db n (
                after_call m post hmac_b64 c qr dumps conf p session_id robot_code car_no service
                  cost_ms db x)
        unfolding after_call
        called-Course robot (answer, n2) store went =
            let (reply, l, done, outcome) = settle-Outcome answer in
            rw done (one_log car_no service robot reply l answer n2 parsed store went outcome)

        found-Course :
            (r : Result (Option Fields))
            → is_empty robot_code ≡ false
            → m.find_one db "robots" (where_eq "robot_code" (str robot_code)) ≡ r
            → Course db n (
                with_plate m post hmac_b64 c qr dumps conf p session_id robot_code car_no service
                  cost_ms
                  (db, n))
        unfolding with_plate with_sid robot_field
        found-Course (raise e) coded found =
            rw (coded, found) (unread car_no service e parsed (coded, found))
        found-Course (ok none) coded found =
            rw (coded, found) (no_store car_no service parsed (no_robot found))
        found-Course (ok (some robot)) coded found = elim (Bool-cases (truthy (get "sid" robot))) [
          | inl sid ↦ rw (coded, found, sid) (called-Course robot _ (coded, found, sid) refl)
          | inr missing ↦
              rw (coded, found, missing)
                (no_store car_no service parsed (no_sid robot found missing))
        ]

        plate-Course : Course db n (
            with_plate m post hmac_b64 c qr dumps conf p session_id robot_code car_no service
              cost_ms
              (db, n))
        unfolding with_plate with_sid robot_field
        plate-Course = elim (Bool-cases (is_empty robot_code)) [
          | inl blank ↦ rw blank (no_store car_no service parsed (no_code blank))
          | inr coded ↦ found-Course _ coded refl
        ]

    content-Course :
        (db : m.State) (n : N) (x : Option String × String)
        → parse_plate_and_service p.content ≡ x
        → Course db n
            (with_content m post hmac_b64 c qr dumps conf cost_ms p session_id robot_code x (db, n))
    unfolding with_content
    content-Course db n (none, service) h = no_plate (ap (λ (y : Option String × String). y.0) h)
    content-Course db n (some car_no, service) h = plate-Course car_no service db n h

    -- A run of the MYS4S handler leaves the database as it was. When the message has no plate it
    -- prompts for one; when it has one and the robot has no code, is not stored or has no `sid`, it
    -- says so; when it has one and the robot cannot be read it raises the error: each time without
    -- a log and without a call. With a plate and a `sid` it calls the gate's API once with both,
    -- the reason and the operator's name, and answers with one log: with status success and no
    -- error when the call answered and a reply was made of it, which holds the text of the reply
    -- unless that is a card, or with status failed and the error that the reply names, which the
    -- call or the making of the reply raised.
    pub mys4s_handle-Course :
        (db : m.State) (n : N)
        → Course db n
            (mys4s_handle m post hmac_b64 c qr dumps conf cost_ms p session_id robot_code (db, n))
    unfolding mys4s_handle
    mys4s_handle-Course db n = content-Course db n (parse_plate_and_service p.content) refl
