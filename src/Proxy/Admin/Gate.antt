-- ===== src/Proxy/Admin/Gate.antt =====
-- When a replay sends anything, and to which address.
use open_yzj.Prelude.{
  Bool-cases, Result, Result-cases, String, ap, false, inl, inr, none, ok, raise, refl, some, true,
  ℕ, ◌∙◌, ◌≡◌, ◌≢◌,
}
use open_yzj.Prelude.Effect.{continue}
use open_yzj.Value.{Fields, Value, get, is_text, truthy}
use open_yzj.Value.Methods.{Codec}
use open_yzj.Mongo.{Mongo, where_eq}
use open_yzj.Proxy.Forwarder.Send.{Response}
use open_yzj.Proxy.Callbacks.AutoForward.{is_issued, set_status}
use open_yzj.Proxy.Admin.Replay.{
  ReplayReq, client_choice, given, mark_and_refuse, replay_callback_event, replay_doc, replay_to,
  resolve_replay_target,
}

module _ (m : Mongo) {W : Type 0} (post : W → Value → Fields → Result Response × W)
    (c : Codec) where
  resolve_keeps :
      (doc : Fields) (req : ReplayReq) (s : m.State × W)
      → (resolve_replay_target m post c doc req s).1 ≡ s
  unfolding resolve_replay_target
  resolve_keeps doc req (db, w) = elim (Bool-cases (given req.target_url)) [
    | inl e ↦ rw e
    | inr e ↦ rw e (elim (Bool-cases (truthy (client_choice req.client_id doc))) [
      | inr f ↦ rw f
      | inl f ↦
          rw f
            (elim (Result-cases (
              m.find_one db "proxy_clients"
                (where_eq "client_id" (client_choice req.client_id doc)))) [
                  | inl (a, g) ↦ rw g
                  | inr (a, g) ↦ rw g
                ])
    ])
  ]

  -- What must hold of an event before a replay sends anything.
  abbrev pub MayBeReplayed : m.State × W → Value → ReplayReq → Type 0
  MayBeReplayed (db, w) oid req =
      (doc : Fields) × (url : Value) × (m.find_one db "kdcloud_callbacks" (where_eq "_id" oid)
        ≡ ok (some doc))
      × (is_text "by-invoice" (get "endpoint" doc) ≡ true)
      × (is_issued (get "return_code" doc) ≡ true)
      × ((resolve_replay_target m post c doc req (db, w)).0 ≡ ok url)
      × (truthy url ≡ true)

  refuse_keeps :
      (oid : Value) (status detail : String) (db : m.State) (w : W)
      → (mark_and_refuse m post c oid status detail (db, w)).1.1 ≡ w
  unfolding mark_and_refuse
  refuse_keeps oid status detail db w =
      elim (Result-cases
        (m.update_one db "kdcloud_callbacks" (where_eq "_id" oid) (set_status status) false).0) [
          | inl (n, e) ↦ rw e
          | inr (n, e) ↦ rw e
        ]

  replay_to_quiet :
      (now : ℕ) (oid : Value) (doc : Fields) (v : Value) (s : m.State × W)
      → (replay_to m post c now oid doc v s).1.1 ≢ s.1
      → truthy v ≡ true
  unfolding replay_to
  replay_to_quiet now oid doc v s h = elim (Bool-cases (truthy v)) [
    | inl filled ↦ filled
    | inr blank ↦ absurd (h (rw blank))
  ]

  replay_after_target :
      (now : ℕ) (oid : Value) (doc : Fields) (r : Result Value × (m.State × W)) (s : m.State × W)
      → r.1 ≡ s
      → (continue r.0 (λ v. replay_to m post c now oid doc v) r.1).1.1 ≢ s.1
      → (url : Value) × (r.0 ≡ ok url) × (truthy url ≡ true)
  replay_after_target now oid doc (ok v, t) s same h =
      (v, refl, replay_to_quiet now oid doc v t (λ k. h (k ∙ ap (λ (x : m.State × W). x.1) same)))
  replay_after_target now oid doc (raise e, t) s same h =
      absurd (h (ap (λ (x : m.State × W). x.1) same))

  replay_doc_quiet :
      (now : ℕ) (oid : Value) (req : ReplayReq) (doc : Fields) (db : m.State) (w : W)
      → (replay_doc m post c now oid req doc (db, w)).1.1 ≢ w
      → (url : Value) × (is_text "by-invoice" (get "endpoint" doc) ≡ true)
        × (is_issued (get "return_code" doc) ≡ true)
        × ((resolve_replay_target m post c doc req (db, w)).0 ≡ ok url)
        × (truthy url ≡ true)
  unfolding replay_doc
  replay_doc_quiet now oid req doc db w h =
      elim (Bool-cases (is_text "by-invoice" (get "endpoint" doc))) [
        | inr e ↦ absurd (h (rw e (refuse_keeps oid "unsupported" _ db w)))
        | inl single ↦ elim (Bool-cases (is_issued (get "return_code" doc))) [
          | inr e ↦ absurd (h (rw single (rw e (refuse_keeps oid "skipped" _ db w))))
          | inl issued ↦
              let (url, aimed, filled) =
                replay_after_target now oid doc (resolve_replay_target m post c doc req (db, w))
                  (db, w) (resolve_keeps doc req (db, w)) (λ k. h (rw single (rw issued k))) in
              (url, single, issued, aimed, filled)
        ]
      ]

  -- When a replay changes anything outside the database, the event is stored, it came in at `by-
  -- invoice`, its return code is absent or "0", and the URL that its target resolves to is not
  -- empty.
  pub replay_callback_event-MayBeReplayed :
      (now : ℕ) (event_id : String) (oid : Value) (req : ReplayReq) (db : m.State) (w : W)
      → (replay_callback_event m post c now event_id (some oid) req (db, w)).1.1 ≢ w
      → MayBeReplayed (db, w) oid req
  unfolding replay_callback_event
  replay_callback_event-MayBeReplayed now event_id oid req db w h =
      elim (Result-cases (m.find_one db "kdcloud_callbacks" (where_eq "_id" oid))) [
        | inr (e, failed) ↦ absurd (h (rw (failed, replay_callback_event)))
        | inl (none, missing) ↦ absurd (h (rw (missing, replay_callback_event)))
        | inl (some doc, found) ↦
            let (url, single, issued, aimed, filled) =
              replay_doc_quiet now oid req doc db w
                (λ k. h (rw (found, replay_callback_event) k)) in
            (doc, url, found, single, issued, aimed, filled)
      ]
