-- ===== src/Proxy/Callbacks/Scheduling.antt =====
-- When a callback is acknowledged, stored and scheduled, and when a scheduled task sends anything.
use open_yzj.Prelude.{
  Bool-cases, List, Result, Result-cases, String, [], append-nil, if◌then◌else◌, inl, inr, none, ok,
  raise, refl, some, sym, true, ℕ, ◌&&◌, ◌++◌, ◌==◌, ◌∷◌, ◌≡◌, ◌≢◌,
}
use open_yzj.Value.{Fields, Value, get, truthy}
use open_yzj.Value.Methods.{Codec}
use open_yzj.Mongo.{Mongo, where_eq}
use open_yzj.Http.{Request}
use open_yzj.Proxy.RuntimeConfig.{get_auto_forward_enabled}
use open_yzj.Proxy.Forwarder.Send.{ForwardResult, Response}
use open_yzj.Proxy.Callbacks.Persist.{
  Decoder, Worker, ack, callback_doc, persist_and_ack, store_and_schedule,
}
use open_yzj.Proxy.Callbacks.AutoForward.{
  auto_target, forward_doc, forward_to_value, is_issued, record_outcome, safe_auto_forward,
}

-- The tasks that one callback starts.
abbrev pub started : (m : Mongo) → ℕ → String → Worker m → Result Value × m.State → List Value
started m mono tag w (ok id, db) =
    if (tag == "by-invoice") && (get_auto_forward_enabled m mono db w.cache).0 then id ∷ [] else []
started m mono tag w (raise e, db) = []

store_and_schedule_lem :
    (m : Mongo) (mono : ℕ) (tag : String) (inserted : Result Value × m.State) (w : Worker m)
    → ((store_and_schedule m mono tag inserted w).db ≡ inserted.1)
      × ((store_and_schedule m mono tag inserted w).tasks
          ≡ w.tasks ++ started m mono tag w inserted)
unfolding store_and_schedule
store_and_schedule_lem m mono tag (ok id, db) w = elim (Bool-cases (tag == "by-invoice")) [
  | inl e ↦ elim (Bool-cases (get_auto_forward_enabled m mono db w.cache).0) [
    | inl on ↦ rw e (rw on (refl, refl))
    | inr off ↦ rw e (rw off (refl, sym (append-nil w.tasks)))
  ]
  | inr e ↦ rw e (refl, sym (append-nil w.tasks))
]
store_and_schedule_lem m mono tag (raise e, db) w = (refl, sym (append-nil w.tasks))

-- `_persist_and_ack` answers every callback with the acknowledgement, also when the database
-- raises; it leaves the database as the insertion leaves it; and it starts one task, for the id
-- that was inserted, exactly when the insertion succeeded, the endpoint is `by-invoice` and the
-- switch is on.
pub persist_and_ack_lem :
    (m : Mongo) (c : Codec) (dec : Decoder) (now mono : ℕ) (req : Request) (tag : String)
    (w : Worker m)
    → let inserted =
        m.insert_one w.db "kdcloud_callbacks" (callback_doc m c dec now req tag w.db) in
      let (reply, after) = persist_and_ack m c dec now mono req tag w in
      (reply ≡ ack)
      × (after.db ≡ inserted.1)
      × (after.tasks ≡ w.tasks ++ started m mono tag w inserted)
unfolding persist_and_ack
persist_and_ack_lem m c dec now mono req tag w =
    let (stored, tasks) =
      store_and_schedule_lem m mono tag
        (m.insert_one w.db "kdcloud_callbacks" (callback_doc m c dec now req tag w.db)) w in
    (refl, stored, tasks)

module _ (m : Mongo) {W : Type 0} (post : W → Value → Fields → Result Response × W)
    (c : Codec) where
  -- What must hold of an event before anything is sent for it.
  abbrev pub MayBeSent : m.State → Value → Type 0
  MayBeSent db event_id =
      (doc : Fields) × (url : Value) × (m.find_one db "kdcloud_callbacks" (where_eq "_id" event_id)
        ≡ ok (some doc))
      × (is_issued (get "return_code" doc) ≡ true)
      × (auto_target m post c db doc ≡ ok url)
      × (truthy url ≡ true)

  record_outcome_w :
      (now : ℕ) (id : Value) (url : Value) (r : Result ForwardResult × W) (db : m.State)
      → (record_outcome m post c now id url r db).1 ≡ r.1
  unfolding record_outcome
  record_outcome_w now id url (ok f, w) db = refl
  record_outcome_w now id url (raise e, w) db = refl

  forward_to_value_quiet :
      (now : ℕ) (id : Value) (doc : Fields) (v : Value) (db : m.State) (w : W)
      → (forward_to_value m post c now id doc v (db, w)).1 ≢ w
      → truthy v ≡ true
  unfolding forward_to_value
  forward_to_value_quiet now id doc v db w h = elim (Bool-cases (truthy v)) [
    | inl filled ↦ filled
    | inr blank ↦ absurd (h (rw blank))
  ]

  forward_doc_quiet :
      (now : ℕ) (id : Value) (doc : Fields) (db : m.State) (w : W)
      → (forward_doc m post c now id doc (db, w)).1 ≢ w
      → (url : Value) × (is_issued (get "return_code" doc) ≡ true)
        × (auto_target m post c db doc ≡ ok url)
        × (truthy url ≡ true)
  unfolding forward_doc
  forward_doc_quiet now id doc db w h = elim (Bool-cases (is_issued (get "return_code" doc))) [
    | inr e ↦ absurd (h (rw e))
    | inl issued ↦ elim (Result-cases (auto_target m post c db doc)) [
      | inr (e, failed) ↦ absurd (h (rw issued (rw failed)))
      | inl (v, aimed) ↦
          let filled = forward_to_value_quiet now id doc v db w (λ k. h (rw issued (rw aimed k))) in
          (v, issued, aimed, filled)
    ]
  ]

  -- When the automatic forwarding of an event changes anything outside the database, the event is
  -- stored, its return code is absent or "0", and the client that it was matched with has a
  -- callback URL that is not empty.
  pub safe_auto_forward-MayBeSent :
      (now : ℕ) (event_id : Value) (db : m.State) (w : W)
      → (safe_auto_forward m post c now event_id (db, w)).1 ≢ w
      → MayBeSent db event_id
  unfolding safe_auto_forward
  safe_auto_forward-MayBeSent now event_id db w h =
      elim (Result-cases (m.find_one db "kdcloud_callbacks" (where_eq "_id" event_id))) [
        | inr (e, failed) ↦ absurd (h (rw (failed, safe_auto_forward)))
        | inl (none, missing) ↦ absurd (h (rw (missing, safe_auto_forward)))
        | inl (some doc, found) ↦
            let (url, issued, aimed, filled) =
              forward_doc_quiet now event_id doc db w (λ k. h (rw (found, safe_auto_forward) k)) in
            (doc, url, found, issued, aimed, filled)
      ]
