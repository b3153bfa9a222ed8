-- ===== src/Robot/Service/Stored.antt =====
-- That a message that the robot answers is stored, and one that it refuses is not.

use open_yzj.Prelude.{
  Bool, List, Option, Result, Result-cases, String, [], ap, false, fun_ext, if◌then◌else◌, inl, inr,
  none, ok, raise, refl, some, subst, true, ℕ, ◌++◌, ◌==◌, ◌||◌, ◌∙◌, ◌∷◌, ◌≡◌,
}
use open_yzj.Value.{Fields, Value, arr, bool, contains, get, int, is_text, null, num, obj, put, str}
use open_yzj.Indexes.{
  Enforces, IsReachable, clashes, clashes-unique_key, clashes_in, server_indexes, unique_key,
}
use open_yzj.Mongo.{IsDocumented, IsSeparate, Mongo, find_first}
use open_yzj.Robot.Config.{Settings}
use open_yzj.Robot.Message.{Payload, ResponseData, Task, test_robot_id, upsert_session}
use open_yzj.Robot.Signature.{Algo, algo_name}
use open_yzj.Robot.Secret.{Vault, get_robot_secret, resolve_robot_code}
use open_yzj.Robot.Storage.{message_doc, save_message_in}
use open_yzj.Robot.Webhook.{greeting, handled, resolved, storing, verified, webhook, with_secret}
use open_yzj.Robot.Service.{Clocks, Outside, Reply, finish, run_handler, serve}
use open_yzj.Robot.Service.Kept.{
  AreQuiet, LeavesMessages, get_robot_secret_kept, handle-LeavesMessages, messages, run_tasks_kept,
}

module _ (now : ℕ) (p : Payload) (session_id : String) where
  -- What an answered message adds to the stored ones, of which `seen` may be one with its id.
  abbrev pub Adds : Option Fields → List Fields → List Fields → Type 0
  Adds none before after =
      (robot_code : String) × (algo : String) × (is_test : Bool) × (id : Value) × (after
        ≡ before ++ put "_id" id (message_doc now p robot_code session_id (some algo) is_test) ∷ [])
  Adds (some seen) before after = after ≡ before

  -- What becomes of the stored messages, by the answer.
  abbrev pub Stored : Result ResponseData → List Fields → List Fields → Type 0
  Stored (ok reply) before after =
      Adds (find_first (λ d. is_text p.msg_id (get "msgId" d)) before) before after
  Stored (raise e) before after = after ≡ before

  module _ (robot_code algo : String) (is_test : Bool) where
    abbrev new_message : Fields
    new_message = message_doc now p robot_code session_id (some algo) is_test

    new_message-unkeyed : contains "_id" new_message ≡ false
    unfolding contains
    new_message-unkeyed = refl

    new_message_id : get "msgId" new_message ≡ str p.msg_id
    unfolding get
    new_message_id = refl

    -- The indexes keep a message out exactly where its id is stored.
    message-clashes :
        (x : Fields) → clashes (unique_key "msgId") x new_message ≡ is_text p.msg_id (get "msgId" x)
    message-clashes x = clashes-unique_key "msgId" p.msg_id x new_message new_message_id

    message-clashes_in :
        (x : Fields)
        → clashes_in server_indexes "messages" x new_message ≡ is_text p.msg_id (get "msgId" x)
    message-clashes_in x = or_false _ ∙ message-clashes x
      where
        or_false : (b : Bool) → (b || false) ≡ b
        or_false true = refl
        or_false false = refl

module _ (m : Mongo) (good : IsDocumented m) (apart : IsSeparate m good) (up : IsReachable m good)
    (index : Enforces m good "messages" (unique_key "msgId")) (v : Vault) {N : Type 0}
    (o : Outside N) (conf : Settings) (env : String) (clocks : Clocks) (p : Payload)
    (session_id : String) where
  abbrev kept : m.State → List Fields
  kept = messages m good apart

  -- how the answer of the webhook begins, and what it leaves of the messages
  abbrev Begins : m.State → Reply m v o conf env clocks → Type 0
  Begins db (ok reply, (tasks, s)) =
      (robot_code : String) × (algo : String) × (is_test : Bool) × (more : List Task) × (tasks
        ≡ storing p robot_code session_id algo is_test ++ more)
      × AreQuiet more
      × (kept s.0 ≡ kept db)
  Begins db (raise e, (tasks, s)) = kept s.0 ≡ kept db

  saved-Adds :
      (robot_code algo : String) (is_test : Bool) (s : m.State) (seen : Option Fields)
      → find_first (λ d. is_text p.msg_id (get "msgId" d)) (kept s) ≡ seen
      → Adds clocks.now p session_id seen
          (kept s)
          (kept (save_message_in m clocks.now p robot_code session_id (some algo) is_test s))
  unfolding save_message_in
  saved-Adds robot_code algo is_test s none free =
      let (id, t, h) =
        up.inserts s "messages" (new_message clocks.now p session_id robot_code algo is_test)
          (new_message-unkeyed clocks.now p session_id robot_code algo is_test)
          (ap (λ q. find_first q (kept s))
              (fun_ext (message-clashes_in clocks.now p session_id robot_code algo is_test))
            ∙ free) in
      (
        robot_code,
        algo,
        is_test,
        id,
        rw (h, save_message_in) (good.insert_one_lem s t "messages" _ id h),
      )
  saved-Adds robot_code algo is_test s (some seen) found =
      let (e, t, h, same) =
        index.insert_refused s (new_message clocks.now p session_id robot_code algo is_test) seen (
          ap (λ q. find_first q (kept s))
            (fun_ext (message-clashes clocks.now p session_id robot_code algo is_test))
          ∙ found) in
      rw (h, save_message_in) same

  finish-Stored :
      (db : m.State) (x : Reply m v o conf env clocks)
      → Begins db x
      → Stored clocks.now p session_id
          (finish m v o conf env clocks x).0
          (kept db)
          (kept (finish m v o conf env clocks x).1.0)
  unfolding finish
  finish-Stored db (raise e, (tasks, s)) h = h
  finish-Stored db (ok reply, (tasks, (t, n)))
        (robot_code, algo, is_test, more, same, quiet, left) =
      rw same (
        rw
          (run_tasks_kept m good apart v o conf env clocks
            (upsert_session p robot_code session_id ∷ more)
            (save_message_in m clocks.now p robot_code session_id (some algo) is_test t, n)
            (tt, quiet))
          (subst
            (λ ds.
              Adds clocks.now p session_id (find_first (λ d. is_text p.msg_id (get "msgId" d)) ds)
                ds
                (kept (save_message_in m clocks.now p robot_code session_id (some algo) is_test t)))
            left (saved-Adds robot_code algo is_test t _ refl)))

  handled-Begins :
      (robot_code algo : String) (is_test : Bool) (db t : m.State) (x : Reply m v o conf env clocks)
      → LeavesMessages m good apart v o conf env clocks t x
      → kept t ≡ kept db
      → Begins db (handled (storing p robot_code session_id algo is_test) x)
  handled-Begins robot_code algo is_test db t (ok reply, (tasks, s)) (left, quiet) h =
      (robot_code, algo, is_test, tasks, refl, quiet, left ∙ h)
  handled-Begins robot_code algo is_test db t (raise e, (tasks, s)) (left, quiet) h = left ∙ h

  verified-Begins :
      (robot_code : String) (allowed : Value) (db t : m.State) (n : N) (r : Result (Option Algo))
      → kept t ≡ kept db
      → Begins db (
          verified m v o.sign_message
            (run_handler m v o conf env clocks)
            env
            p
            session_id
            robot_code
            allowed
            t
            n
            r)
  unfolding verified
  verified-Begins robot_code allowed db t n (raise e) h = h
  verified-Begins robot_code allowed db t n (ok none) h = h
  verified-Begins robot_code allowed db t n (ok (some algo)) h =
      handled-Begins robot_code (algo_name algo) false db t _
        (handle-LeavesMessages m good apart v o conf env clocks p session_id robot_code allowed
          (t, n))
        h

  with_secret-Begins :
      (sign robot_code : String) (allowed : Value) (db : m.State) (n : N)
      (x : Result Value × m.State)
      → kept x.1 ≡ kept db
      → Begins db (
          with_secret m v o.sign_message
            (run_handler m v o conf env clocks)
            env
            p
            sign
            session_id
            robot_code
            allowed
            n
            x)
  unfolding with_secret
  with_secret-Begins sign robot_code allowed db n (raise e, t) h = h
  with_secret-Begins sign robot_code allowed db n (ok null, t) h = h
  with_secret-Begins sign robot_code allowed db n (ok (bool b), t) h = h
  with_secret-Begins sign robot_code allowed db n (ok (int k), t) h = h
  with_secret-Begins sign robot_code allowed db n (ok (num k), t) h = h
  with_secret-Begins sign robot_code allowed db n (ok (arr vs), t) h = h
  with_secret-Begins sign robot_code allowed db n (ok (obj d), t) h = h
  with_secret-Begins sign robot_code allowed db n (ok (str secret), t) h =
      verified-Begins robot_code allowed db t n _ h

  tested-Begins :
      (is_test : Bool) (sign robot_code : String) (allowed : Value) (db : m.State) (n : N)
      → Begins db (
          if is_test
          then (ok greeting, (storing p robot_code session_id "test-skip" true, (db, n)))
          else with_secret m v o.sign_message
              (run_handler m v o conf env clocks)
              env
              p
              sign
              session_id
              robot_code
              allowed
              n
              (get_robot_secret m v env clocks.now p.robot_id db))
  tested-Begins true sign robot_code allowed db n =
      (robot_code, "test-skip", true, [], refl, tt, refl)
  tested-Begins false sign robot_code allowed db n =
      with_secret-Begins sign robot_code allowed db n _
        (get_robot_secret_kept m good apart v clocks.now env p.robot_id db)

  resolved-Begins :
      (sign robot_code : String) (allowed : Value) (db : m.State) (n : N)
      → Begins db (
          resolved m v o.sign_message
            (run_handler m v o conf env clocks)
            env
            clocks.now
            p
            sign
            session_id
            robot_code
            allowed
            db
            n)
  unfolding resolved
  resolved-Begins sign robot_code allowed db n =
      tested-Begins (p.robot_id == test_robot_id) sign robot_code allowed db n

  -- When the webhook, over the four handlers, answers a request whose message id is not stored,
  -- then once the background tasks have run the collection of the messages holds one more document,
  -- that of the message, at the end of those that it held before. When it answers one whose message
  -- id is stored already, which the unique index on `msgId` keeps out, and when it raises, the
  -- collection is as it was. The database does what its manual says, no call of it raises but where
  -- a unique index may stand against it, and a write to one collection leaves the others.
  pub serve-Stored :
      (url_robot_code sign : String) (db : m.State) (n : N)
      → Stored clocks.now p session_id
          (serve m v o conf env clocks url_robot_code p sign session_id (db, n)).0
          (good.docs db "messages")
          (good.docs
            (serve m v o conf env clocks url_robot_code p sign session_id (db, n)).1.0
            "messages")
  unfolding serve webhook
  serve-Stored url_robot_code sign db n =
      elim (Result-cases (resolve_robot_code m v p.robot_id url_robot_code db)) [
        | inr (e, lost) ↦ finish-Stored db _ (rw (webhook, lost) refl)
        | inl ((robot_code, allowed), found) ↦
            finish-Stored db _ (rw (webhook, found) (resolved-Begins sign robot_code allowed db n))
      ]
