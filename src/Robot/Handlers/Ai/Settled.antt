-- ===== src/Robot/Handlers/Ai/Settled.antt =====
-- server/app/services/handlers/ai_handler.py: the log that a background task leaves.
use open_yzj.Prelude.{
  Bool, List, Result, String, [], ap, arith, eq_refl, exc_text, false, if◌then◌else◌, is_empty,
  none, ok, raise, refl, true, ℕ, ◌&&◌, ◌++◌, ◌∙◌, ◌∷◌, ◌≡◌,
}
use open_yzj.Value.{Fields, Value, contains, get, is_text, put, str}
use open_yzj.Indexes.{IsReachable, never_found}
use open_yzj.Mongo.{IsDocumented, Mongo, Update, apply_update, find_first, no_update, update_first}
use open_yzj.Mongo.Keyed.{update_first_missed}
use open_yzj.Mongo.Updates.{find_first-append, update_docs_plain}
use open_yzj.Proxy.Forwarder.Send.{Response}
use open_yzj.Robot.Config.{Settings}
use open_yzj.Robot.Message.{Payload}
use open_yzj.Robot.Storage.{command_log_doc, save_command_log, update_command_log}
use open_yzj.Robot.Outbound.{push_card_message, push_found}
use open_yzj.Robot.Handlers.Ai.{
  after_chat, after_push, failure_update, pending_doc, pending_query, run_ai_task, success_update,
}

-- What the log of a task says, once the model has answered or failed.
abbrev pub Tells : Result String → Fields → Type 0
Tells (ok reply) d = (get "status" d ≡ str "success") × (get "response_content" d ≡ str reply)
Tells (raise e) d = (get "status" d ≡ str "failed") × (get "error" d ≡ str (exc_text e))

update_first-last :
    (p : Fields → Bool) (u : Update) (ds : List Fields) (d : Fields)
    → find_first p ds ≡ none
    → p d ≡ true
    → update_first p u (ds ++ d ∷ []) ≡ ds ++ apply_update u d ∷ []
unfolding find_first update_first
update_first-last p u [] d h k = rw k
update_first-last p u (e ∷ ds) d h k = ground (arith, update_first-last p u ds d)

abbrev setting : Fields → Update
setting fs = record no_update { set = fs }

module _ (m : Mongo) (good : IsDocumented m) (up : IsReachable m good) (now : ℕ) (p : Payload)
    (session_id : String) where
  abbrev logs : m.State → List Fields
  logs s = good.docs s "command_logs"

  abbrev pending : Fields → Bool
  pending = good.matches (pending_query p.msg_id)

  abbrev first_doc : Value → Fields
  first_doc id = put "_id" id (command_log_doc now (pending_doc p session_id))

  pending_lem :
      (d : Fields)
      → pending d ≡ (
          is_text p.msg_id (get "msgId" d)
          && (is_text "ai" (get "command" d) && is_text "pending" (get "status" d)))
  pending_lem d =
      rw
        (
          good.matches-both, good.matches-where_eq, good.matches-both, good.matches-where_eq,
          good.matches-where_eq,
        )
        refl

  begun : (id : Value) → pending (first_doc id) ≡ true
  unfolding get put
  begun id = pending_lem (first_doc id) ∙ rw (eq_refl p.msg_id) refl

  not_pending :
      (ds : List Fields) (d : Fields)
      → find_first pending ds ≡ none
      → get "status" d ≡ str "success"
      → find_first pending (ds ++ d ∷ []) ≡ none
  unfolding find_first
  not_pending ds d h k =
      find_first-append pending ds (d ∷ []) h ∙ rw (pending_lem d) (rw k (ground arith))

  -- an update that ends the task
  module _ (fs : Fields) where
    updated :
        (s : m.State)
        → logs (update_command_log m now (pending_query p.msg_id) fs s)
          ≡ update_first pending (setting fs) (logs s)
    unfolding update_command_log
    updated s =
        let (n, t, h) = up.updates s "command_logs" (pending_query p.msg_id) (setting fs) refl in
        rw (h, update_command_log)
          (good.update_one_lem s t "command_logs" _ _ false n h
            ∙ update_docs_plain pending (setting fs) _ (logs s))

    settled :
        (s : m.State) (ds : List Fields) (id : Value)
        → find_first pending ds ≡ none
        → logs s ≡ ds ++ first_doc id ∷ []
        → logs (update_command_log m now (pending_query p.msg_id) fs s)
          ≡ ds ++ apply_update (setting fs) (first_doc id) ∷ []
    settled s ds id h k =
        updated s
        ∙ (ap (update_first pending (setting fs)) k
            ∙ update_first-last pending (setting fs) ds (first_doc id) h (begun id))

  saved :
      (s : m.State)
      → (id : Value) × (logs (save_command_log m now (pending_doc p session_id) s)
          ≡ logs s ++ first_doc id ∷ [])
  unfolding save_command_log contains
  saved s =
      let (id, t, h) =
        up.inserts s "command_logs" (command_log_doc now (pending_doc p session_id)) refl
          (never_found (logs s)) in
      (id, rw (h, save_command_log) (good.insert_one_lem s t "command_logs" _ id h))

  module _ {N : Type 0} (post : N → String → Fields → Result Response × N)
      (ask : String → N → Result String × N) (conf : Settings) (cost_ms failed_ms : ℕ) where
    pushed_state :
        (url : Result Value) (body : Fields) (s : m.State) (n : N)
        → (push_found m post conf.yunzhijia_webhook_url url body (s, n)).1.0 ≡ s
    unfolding push_found
    pushed_state (ok url) body s n = refl
    pushed_state (raise e) body s n = refl

    -- what follows the push finds no log that is still pending
    after_push_lem :
        (r : Result (Unit {0}) × (m.State × N)) (s : m.State)
        → r.1.0 ≡ s
        → find_first pending (logs s) ≡ none
        → logs (after_push m post ask conf now cost_ms failed_ms p session_id r).0 ≡ logs s
    unfolding after_push
    after_push_lem (ok done, (t, n)) s same h = ap logs same
    after_push_lem (raise e, (t, n)) s same h =
        updated (failure_update e failed_ms) t
        ∙ (update_first_missed pending _ (logs t) (ap (λ x. find_first pending (logs x)) same ∙ h)
            ∙ ap logs same)

    after_chat_lem :
        (robot_code : String) (s : m.State) (r : Result String) (n : N) (ds : List Fields)
        (id : Value)
        → find_first pending ds ≡ none
        → logs s ≡ ds ++ first_doc id ∷ []
        → (d : Fields) × (logs
              (after_chat m post ask conf now cost_ms failed_ms p session_id robot_code s (r, n)).0
            ≡ ds ++ d ∷ [])
          × (get "msgId" d ≡ str p.msg_id)
          × Tells r d
    unfolding after_chat push_card_message apply_update get put
    after_chat_lem robot_code s (ok reply) n ds id h k =
        let d = apply_update (setting (success_update reply cost_ms)) (first_doc id) in
        let left = settled (success_update reply cost_ms) s ds id h k in
        (
          d,
          after_push_lem _ _ (pushed_state _ _ _ n)
                (ap (find_first pending) left ∙ not_pending ds d h refl)
              ∙ left,
          refl,
          (refl, refl),
        )
    after_chat_lem robot_code s (raise e) n ds id h k = (
      apply_update (setting (failure_update e failed_ms)) (first_doc id),
      settled (failure_update e failed_ms) s ds id h k,
      refl,
      (refl, refl),
    )

    -- The background task of the AI handler always ends with one more log, for its message: a
    -- success with the reply when the model answered, whatever the push of the reply does, and a
    -- failure with the text of the error when the model raised. The database does what its manual
    -- says, no call of it raises but where a unique index may stand against it, and no AI log of
    -- the message was pending before.
    pub run_ai_task-Tells :
        (prompt robot_code : String) (s : m.State) (n : N)
        → find_first (good.matches (pending_query p.msg_id)) (good.docs s "command_logs") ≡ none
        → (d : Fields) × (good.docs
              (run_ai_task m post ask conf now cost_ms failed_ms p session_id prompt robot_code
                (s, n)).0
              "command_logs"
            ≡ good.docs s "command_logs" ++ d ∷ [])
          × (get "msgId" d ≡ str p.msg_id)
          × Tells (ask (if is_empty prompt then "（空 prompt）" else prompt) n).0 d
    unfolding run_ai_task
    run_ai_task-Tells prompt robot_code s n h =
        let (id, k) = saved s in after_chat_lem robot_code _ _ _ (good.docs s "command_logs") id h k
