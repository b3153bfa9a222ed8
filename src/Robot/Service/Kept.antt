-- ===== src/Robot/Service/Kept.antt =====
-- The collection of the messages is written by one of the background tasks only.

use open_yzj.Prelude.{
  Bool-cases, List, Option, Result, Result-cases, String, [], ap, false, if◌then◌else◌, inl, inr,
  none, ok, raise, refl, some, true, ℕ, ◌&&◌, ◌==◌, ◌∙◌, ◌∷◌, ◌≡◌,
}
use open_yzj.Value.{Fields, Value, contains, end, field, get, truthy}
use open_yzj.Mongo.{IsDocumented, IsSeparate, Mongo, Query, where_eq}
use open_yzj.Proxy.Forwarder.Send.{Response}
use open_yzj.Robot.Config.{Settings}
use open_yzj.Robot.Message.{
  ApiCallLog, CommandLog, Payload, Task, run_ai, save_message, test_robot_id, upsert_session,
  write_command_log,
}
use open_yzj.Robot.Outbound.{push_card_message, push_found}
use open_yzj.Robot.Secret.{
  Vault, get_robot_secret, is_non_prod, migrate, migration, robot_query, secret_in,
}
use open_yzj.Robot.Router.{Handler, ai, api, echo, handler_name, mys4s}
use open_yzj.Robot.Storage.{save_command_log, update_command_log}
use open_yzj.Robot.Processor.{allowed_run, clean, guarded, handle, is_in}
use open_yzj.Robot.Handlers.Ai.{after_chat, after_push, run_ai_task}
use open_yzj.Robot.Handlers.Api.{answered}
use open_yzj.Robot.Handlers.Mys4s.Course.{
  Course, mys4s_handle-Course, no_plate, no_store, one_log, unread,
}
use open_yzj.Robot.Service.{
  Clocks, Outside, Reply, ask, beside_database, run_handler, run_task, run_tasks,
}

abbrev pub IsQuiet : Task → Type 0
IsQuiet (save_message p robot_code session_id sign_algo is_test) = ⊥
IsQuiet _ = Unit {0}

abbrev pub AreQuiet : List Task → Type 0
AreQuiet [] = Unit {0}
AreQuiet (task ∷ tasks) = IsQuiet task × AreQuiet tasks

module _ (m : Mongo) (good : IsDocumented m) (apart : IsSeparate m good) where
  abbrev pub messages : m.State → List Fields
  messages s = good.docs s "messages"

  log_saved :
      (now : ℕ) (l : CommandLog) (s : m.State) → messages (save_command_log m now l s) ≡ messages s
  unfolding save_command_log
  log_saved now l s = apart.insert_one_other s "command_logs" "messages" _ refl

  log_updated :
      (now : ℕ) (q : Query) (fs : Fields) (s : m.State)
      → messages (update_command_log m now q fs s) ≡ messages s
  unfolding update_command_log
  log_updated now q fs s = apart.update_one_other s "command_logs" "messages" q _ false refl

  module _ {N : Type 0} (push : N → String → Fields → Result Response × N)
      (ask : String → N → Result String × N) (conf : Settings) (now chat_ms failed_ms : ℕ)
      (p : Payload) (session_id : String) where
    pushed :
        (url : Result Value) (body : Fields) (s : m.State) (n : N)
        → (push_found m push conf.yunzhijia_webhook_url url body (s, n)).1.0 ≡ s
    unfolding push_found
    pushed (ok url) body s n = refl
    pushed (raise e) body s n = refl

    pushed_on :
        (r : Result (Unit {0}) × (m.State × N)) (s : m.State)
        → r.1.0 ≡ s
        → messages (after_push m push ask conf now chat_ms failed_ms p session_id r).0 ≡ messages s
    unfolding after_push
    pushed_on (ok done, (t, n)) s same = ap messages same
    pushed_on (raise e, (t, n)) s same = log_updated now _ _ t ∙ ap messages same

    chatted :
        (robot_code : String) (s : m.State) (r : Result String × N)
        → messages (after_chat m push ask conf now chat_ms failed_ms p session_id robot_code s r).0
          ≡ messages s
    unfolding after_chat push_card_message
    chatted robot_code s (ok reply, n) = pushed_on _ _ (pushed _ _ _ n) ∙ log_updated now _ _ s
    chatted robot_code s (raise e, n) = log_updated now _ _ s

    run_ai_task_kept :
        (prompt robot_code : String) (s : m.State × N)
        → messages
            (run_ai_task m push ask conf now chat_ms failed_ms p session_id prompt robot_code s).0
          ≡ messages s.0
    unfolding run_ai_task
    run_ai_task_kept prompt robot_code (db, n) = chatted robot_code _ _ ∙ log_saved now _ db

  module _ (v : Vault) (now : ℕ) where
    migrate_kept :
        (doc : Fields) (plain : Value) (s : m.State)
        → messages (migrate m v now doc plain s) ≡ messages s
    unfolding migrate
    migrate_kept doc plain s = elim (Result-cases (v.encrypt_secret plain)) [
      | inr (e, lost) ↦ rw (lost, migrate) refl
      | inl (sealed, got) ↦ elim (Bool-cases (contains "_id" doc)) [
        | inl e ↦
            rw (got, migrate, e)
              (apart.update_one_other s "robots" "messages" (where_eq "_id" (get "_id" doc))
                (migration sealed now) false refl)
        | inr e ↦ rw (got, migrate, e) refl
      ]
    ]

    secret_in_kept :
        (doc : Fields) (s : m.State) → messages (secret_in m v now doc s).1 ≡ messages s
    unfolding secret_in
    secret_in_kept doc s = elim (Bool-cases (truthy (get "appSecret_encrypted" doc))) [
      | inl e ↦ rw e refl
      | inr e ↦ elim (Bool-cases (truthy (get "appSecret" doc))) [
        | inl plain ↦ rw (e, plain) (migrate_kept doc (get "appSecret" doc) s)
        | inr missing ↦ rw (e, missing) refl
      ]
    ]

    read_kept :
        (env robot_id : String) (s : m.State) (r : Result (Option Fields))
        → m.find_one s "robots" (robot_query robot_id) ≡ r
        → ((robot_id == test_robot_id) && is_non_prod env) ≡ false
        → messages (get_robot_secret m v env now robot_id s).1 ≡ messages s
    unfolding get_robot_secret
    read_kept env robot_id s (raise e) read real = rw (real, read) refl
    read_kept env robot_id s (ok none) read real = rw (real, read) refl
    read_kept env robot_id s (ok (some end)) read real = rw (real, read) refl
    read_kept env robot_id s (ok (some (field k w more))) read real =
        rw (real, read) (secret_in_kept (field k w more) s)

    pub get_robot_secret_kept :
        (env robot_id : String) (s : m.State)
        → messages (get_robot_secret m v env now robot_id s).1 ≡ messages s
    unfolding get_robot_secret
    get_robot_secret_kept env robot_id s =
        elim (Bool-cases ((robot_id == test_robot_id) && is_non_prod env)) [
          | inl e ↦ rw e refl
          | inr e ↦ read_kept env robot_id s _ refl e
        ]

  module _ (v : Vault) {N : Type 0} (o : Outside N) (conf : Settings) (env : String)
      (clocks : Clocks) where
    pub run_task_kept :
        (task : Task) (s : m.State × N)
        → IsQuiet task
        → messages (run_task m v o conf env clocks task s).0 ≡ messages s.0
    unfolding run_task
    run_task_kept (save_message p robot_code session_id sign_algo is_test) s h = absurd h
    run_task_kept (upsert_session p robot_code session_id) (db, n) h =
        apart.update_one_other db "sessions" "messages" _ _ true refl
    run_task_kept (write_command_log l) (db, n) h = log_saved clocks.now l db
    run_task_kept (run_ai p session_id prompt robot_code) s h =
        run_ai_task_kept o.push (ask m v o conf env clocks) conf clocks.now clocks.chat_ms
          clocks.failed_ms p session_id prompt robot_code s

    pub run_tasks_kept :
        (tasks : List Task) (s : m.State × N)
        → AreQuiet tasks
        → messages (run_tasks m v o conf env clocks tasks s).0 ≡ messages s.0
    unfolding run_tasks
    run_tasks_kept [] s h = refl
    run_tasks_kept (task ∷ tasks) s h =
        run_tasks_kept tasks (run_task m v o conf env clocks task s) h.1 ∙ run_task_kept task s h.0

    -- what a handler leaves of the database, and the tasks that it adds
    abbrev pub LeavesMessages : m.State → Reply m v o conf env clocks → Type 0
    LeavesMessages db x = (messages x.1.1.0 ≡ messages db) × AreQuiet x.1.0

    Course-LeavesMessages :
        (p : Payload) (robot_code : String) (db : m.State) (n : N) (x : Reply m v o conf env clocks)
        → Course m p robot_code o.post o.sign_pass o.codec o.draw o.dumps conf db n x
        → LeavesMessages db x
    Course-LeavesMessages p robot_code db n _ (no_plate h) = (refl, tt)
    Course-LeavesMessages p robot_code db n _ (no_store car_no service h k) = (refl, tt)
    Course-LeavesMessages p robot_code db n _ (unread car_no service e h k) = (refl, tt)
    Course-LeavesMessages p robot_code db n _
          (one_log car_no service robot reply l answer n2 h k e went) =
        (refl, (tt, tt))

    answered-LeavesMessages :
        (p : Payload) (session_id : String) (db : m.State) (w : Result (Value × ApiCallLog) × N)
        → LeavesMessages db (
            beside_database m v o conf env clocks db
              (answered o.request o.codec clocks.api_times p session_id w))
    unfolding answered
    answered-LeavesMessages p session_id db (ok r, n) = (refl, (tt, tt))
    answered-LeavesMessages p session_id db (raise e, n) = (refl, (tt, tt))

    run_handler-LeavesMessages :
        (h : Handler) (p : Payload) (session_id robot_code : String) (s : m.State × N)
        → LeavesMessages s.0 (run_handler m v o conf env clocks h p session_id robot_code s)
    unfolding run_handler
    run_handler-LeavesMessages echo p session_id robot_code s = (refl, (tt, tt))
    run_handler-LeavesMessages ai p session_id robot_code s = (refl, (tt, tt))
    run_handler-LeavesMessages api p session_id robot_code (db, n) =
        answered-LeavesMessages p session_id db _
    run_handler-LeavesMessages mys4s p session_id robot_code (db, n) =
        Course-LeavesMessages p robot_code db n _ (
          mys4s_handle-Course m p robot_code o.post o.sign_pass o.codec o.draw o.dumps conf
            clocks.pass_ms session_id db n)

    guarded-LeavesMessages :
        (robot_code : String) (db : m.State) (x : Reply m v o conf env clocks)
        → LeavesMessages db x
        → LeavesMessages db (guarded (run_handler m v o conf env clocks) robot_code x)
    guarded-LeavesMessages robot_code db (ok reply, rest) h = h
    guarded-LeavesMessages robot_code db (raise e, rest) h = h

    allowed_run-LeavesMessages :
        (p : Payload) (session_id robot_code : String) (allowed : Value) (h : Handler)
        (s : m.State × N)
        → LeavesMessages s.0
            (allowed_run (run_handler m v o conf env clocks) p session_id robot_code allowed h s)
    unfolding allowed_run
    allowed_run-LeavesMessages p session_id robot_code allowed h s =
        elim (Result-cases (if truthy allowed then is_in (handler_name h) allowed else ok true)) [
          | inl (true, e) ↦
              rw (e, allowed_run)
                (guarded-LeavesMessages robot_code s.0 _
                  (run_handler-LeavesMessages h (clean p) session_id robot_code s))
          | inl (false, e) ↦ rw (e, allowed_run) (refl, tt)
          | inr (e, lost) ↦ rw (lost, allowed_run) (refl, tt)
        ]

    pub handle-LeavesMessages :
        (p : Payload) (session_id robot_code : String) (allowed : Value) (s : m.State × N)
        → LeavesMessages s.0
            (handle (run_handler m v o conf env clocks) p session_id robot_code allowed s)
    unfolding handle
    handle-LeavesMessages p session_id robot_code allowed s =
        allowed_run-LeavesMessages p session_id robot_code allowed _ s
