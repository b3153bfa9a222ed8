-- ===== src/Robot/Storage/Sessions.antt =====
-- What a message leaves of its session.
use open_yzj.Prelude.{
  Bool, List, Option, Option-cases, String, ap, eq_refl, inl, inr, none, ok, refl, some, true, ℕ,
  ◌+◌, ◌∙◌, ◌≡◌,
}
use open_yzj.Value.{Fields, Value, as_number, get, get-put, int, is_text, put, str}
use open_yzj.Mongo.{IsDocumented, Mongo, Update, apply_update, find_first, returned, upserted}
use open_yzj.Mongo.Updates.{find_first-upsert, matches_text}
use open_yzj.Robot.Message.{Payload}
use open_yzj.Robot.Storage.{session_query, session_update, upsert_session_in}

abbrev pub messages_of : Option Fields → ℕ
messages_of none = 0
messages_of (some d) = as_number (get "message_count" d)

-- what a session keeps from its first message
abbrev pub kept : Option Fields → String → Value → Value
kept none k fresh = fresh
kept (some d) k fresh = get k d

-- A session after a message, given what it was before.
pub record IsAdvanced (now : ℕ) (p : Payload) (robot_code : String) (before : Option Fields)
    (d : Fields) : Type 0 where
  pub last_msg_id : get "last_msgId" d ≡ str p.msg_id
  pub last_content : get "last_content" d ≡ str p.content
  pub updated_at : get "updated_at" d ≡ int now
  pub message_count : get "message_count" d ≡ int (messages_of before + 1)
  pub code_kept : get "robot_code" d ≡ kept before "robot_code" (str robot_code)
  pub robot_kept : get "robotId" d ≡ kept before "robotId" (str p.robot_id)
  pub created_at : get "created_at" d ≡ kept before "created_at" (int now)

module _ (now : ℕ) (p : Payload) (robot_code session_id : String) where
  abbrev u : Update
  u = session_update now p robot_code session_id

  applied : (d : Fields) → IsAdvanced now p robot_code (some d) (apply_update u d)
  unfolding apply_update
  applied d = record {
    last_msg_id = simp get-put;
    last_content = simp get-put;
    updated_at = simp get-put;
    message_count = simp get-put;
    code_kept = simp get-put;
    robot_kept = simp get-put;
    created_at = simp get-put;
  }

  same_session : (d : Fields) → get "sessionId" (apply_update u d) ≡ get "sessionId" d
  unfolding apply_update
  same_session d = simp get-put

  fresh :
      IsAdvanced now p robot_code none (upserted (session_query session_id) u)
      × (get "sessionId" (upserted (session_query session_id) u) ≡ str session_id)
  unfolding upserted get put
  fresh = (
    record {
      last_msg_id = refl;
      last_content = refl;
      updated_at = refl;
      message_count = refl;
      code_kept = refl;
      robot_kept = refl;
      created_at = refl;
    },
    refl,
  )

  returned-IsAdvanced :
      (q : Fields → Bool) (ds : List Fields)
      → (d : Fields) × (returned q (session_query session_id) u true ds ≡ some d)
        × IsAdvanced now p robot_code (find_first q ds) d
  unfolding returned
  returned-IsAdvanced q ds = elim (Option-cases (find_first q ds)) [
    | inl e ↦ (upserted (session_query session_id) u, rw (e, returned) refl, rw e fresh.0)
    | inr (d, e) ↦ (apply_update u d, rw (e, returned) refl, rw e (applied d))
  ]

-- the session of an id
abbrev pub session_in : (m : Mongo) → IsDocumented m → String → m.State → Option Fields
session_in m good session_id s =
    find_first (λ d. is_text session_id (get "sessionId" d)) (good.docs s "sessions")

-- When the update of a session does not raise, a session of that id is stored afterwards: it has
-- the id, the content and the time of the message, one message more than before, and the robot and
-- the time of creation that it had before, or those of this message if it is new. The driver is
-- assumed to do what its manual says.
pub upsert_session-IsAdvanced :
    (m : Mongo) (good : IsDocumented m) (now n : ℕ) (p : Payload) (robot_code session_id : String)
    (s : m.State)
    → (m.update_one s "sessions"
        (session_query session_id)
        (session_update now p robot_code session_id)
        true).0
      ≡ ok n
    → (d : Fields) × (session_in m good session_id
          (upsert_session_in m now p robot_code session_id s)
        ≡ some d)
      × IsAdvanced now p robot_code (session_in m good session_id s) d
unfolding upsert_session_in
upsert_session-IsAdvanced m good now n p robot_code session_id s h =
    let q = λ (d : Fields). is_text session_id (get "sessionId" d) in
    let u = session_update now p robot_code session_id in
    let t = (m.update_one s "sessions" (session_query session_id) u true).1 in
    let (d, left, advanced) =
      returned-IsAdvanced now p robot_code session_id q (good.docs s "sessions") in
    let written =
      good.update_one_lem s t "sessions" (session_query session_id) u true n (λ i. (h i, t)) in
    (
      d,
      rw (written, matches_text m good "sessionId" session_id)
          (find_first-upsert q u (session_query session_id) (good.docs s "sessions")
              (λ e here. rw (same_session now p robot_code session_id e) here)
              (ap (is_text session_id) (fresh now p robot_code session_id).1 ∙ eq_refl session_id)
            ∙ left),
      advanced,
    )
