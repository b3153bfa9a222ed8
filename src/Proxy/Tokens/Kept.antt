-- ===== src/Proxy/Tokens/Kept.antt =====
-- proxy-server/app/token_manager.py: that the token of a renewal serves the callers after it.
use open_yzj.Mongo.Updates.{find_first-upsert}
use open_yzj.Proxy.Tokens.Stored.{
  is_token_doc, matches-token_query, returned_token, token_update-is_token_doc,
  upserted-is_token_doc,
}
use open_yzj.Prelude.{
  Option, Result, Result-cases, String, ap, inl, inr, none, ok, raise, refl, some, some-injective,
  sym, true, ℕ, ◌*◌, ◌∙◌, ◌≡◌,
}
use open_yzj.Prelude.Effect.{continue, ok_pair, pure, raise_pair}
use open_yzj.Value.{Fields, Value, get, truthy}
use open_yzj.Value.Methods.{Codec}
use open_yzj.Mongo.{IsDocumented, Mongo, find_first, update_docs}
use open_yzj.Proxy.Forwarder.Send.{Response}
use open_yzj.Proxy.Kdcloud.{Settings}
use open_yzj.Proxy.Kdcloud.Gateway.{Clients, get_app_token, login}
use open_yzj.Proxy.Tokens.Grants.{
  cached_app_token, cached_token, granted, lasts, token_query, token_update,
}
use open_yzj.Proxy.Tokens.Manager.{do_full_refresh, get_valid_access_token, renew_access}

module _ (m : Mongo) {N : Type 0}
    (post : N → String → String → Fields → Fields → Result Response × N) (c : Codec)
    (conf : Settings) (clients : Clients) (env : String) where
  -- What a renewal that returned wrote.
  pub record IsStored (now : ℕ) (s t : m.State × N) (token : Value) : Type 0 where
    pub app : Value × Value
    pub access : Value × Value
    pub count : ℕ
    pub written :
        m.update_one s.0 "kdcloud_tokens"
          (token_query conf env)
          (token_update conf env now app access)
          true
        ≡ (ok count, t.0)
    pub same : access.0 ≡ token

  stored_inv :
      (access token : Value) (n : N) (x : Result ℕ × m.State) (t : m.State × N)
      → continue x.0 (λ k. pure access) (x.1, n) ≡ (ok token, t)
      → (k : ℕ) × (x ≡ (ok k, t.0)) × (access ≡ token)
  stored_inv access token n (raise e, db) t h = absurd (raise_pair h)
  stored_inv access token n (ok k, db) t h =
      let (same, left) = ok_pair h in
      (k, ap (λ (u : m.State × N). (Result.ok k, u.0)) (sym left), same)

  renew_access-IsStored :
      (now : ℕ) (app : Value × Value) (db : m.State) (n : N) (t : m.State × N) (token : Value)
      (r : Result Value × N)
      → login post conf clients app.0 env n ≡ r
      → renew_access m post c conf clients env now app (db, n) ≡ (ok token, t)
      → IsStored now (db, n) t token
  unfolding renew_access
  renew_access-IsStored now app db n t token (raise e, n') called h =
      absurd (raise_pair (rw called at h))
  renew_access-IsStored now app db n t token (ok resp, n') called h =
      elim (Result-cases (granted c "access_token" "获取 access_token 失败: " resp)) [
        | inr (e, got) ↦ absurd (raise_pair (rw (called, got) at h))
        | inl (access, got) ↦
            let (k, put_in, same) =
              stored_inv access.0 token n'
                (m.update_one db "kdcloud_tokens" (token_query conf env)
                  (token_update conf env now app access) true)
                t (rw (called, got) at h) in
            record { app = app; access = access; count = k; written = put_in; same = same }
      ]

  refreshed :
      (now : ℕ) (db : m.State) (n : N) (t : m.State × N) (token : Value) (doc : Option Fields)
      (reused : Option (Value × Value)) (r : Result Value × N)
      → m.find_one db "kdcloud_tokens" (token_query conf env) ≡ ok doc
      → cached_app_token c now doc ≡ ok reused
      → get_app_token post conf clients env n ≡ r
      → do_full_refresh m post c conf clients env now (db, n) ≡ (ok token, t)
      → IsStored now (db, n) t token
  unfolding do_full_refresh
  refreshed now db n t token doc (some app) r read look called h =
      renew_access-IsStored now app db n t token _ refl (rw (read, look) at h)
  refreshed now db n t token doc none (raise e, n') read look called h =
      absurd (raise_pair (rw called at rw (read, look) at h))
  refreshed now db n t token doc none (ok resp, n') read look called h =
      elim (Result-cases (granted c "app_token" "获取 app_token 失败: " resp)) [
        | inr (e, got) ↦ absurd (raise_pair (rw (called, got) at rw (read, look) at h))
        | inl (app, got) ↦ moved (
            renew_access-IsStored now app db n' t token _ refl
              (rw (called, got) at rw (read, look) at h))
      ]
    where
      moved : IsStored now (db, n') t token → IsStored now (db, n) t token
      moved k = record {
        app = k.app;
        access = k.access;
        count = k.count;
        written = k.written;
        same = k.same;
      }

  pub do_full_refresh-IsStored :
      (now : ℕ) (s t : m.State × N) (token : Value)
      → do_full_refresh m post c conf clients env now s ≡ (ok token, t)
      → IsStored now s t token
  unfolding do_full_refresh
  do_full_refresh-IsStored now (db, n) t token h =
      elim (Result-cases (m.find_one db "kdcloud_tokens" (token_query conf env))) [
        | inr (e, read) ↦ absurd (raise_pair (rw read at h))
        | inl (doc, read) ↦ elim (Result-cases (cached_app_token c now doc)) [
          | inr (e, look) ↦ absurd (raise_pair (rw (read, look) at h))
          | inl (reused, look) ↦ refreshed now db n t token doc reused _ read look refl h
        ]
      ]

  module _ (good : IsDocumented m) (now : ℕ) (s t : m.State × N) (token : Value)
      (done : do_full_refresh m post c conf clients env now s ≡ (ok token, t)) where
    -- the document of the account and the environment, afterwards
    pub kept_doc :
        (d : Fields) × (find_first (is_token_doc conf env) (good.docs t.0 "kdcloud_tokens")
          ≡ some d)
        × (get "access_token" d ≡ token)
    kept_doc =
        let k = do_full_refresh-IsStored now s t token done in
        let ds = good.docs s.0 "kdcloud_tokens" in
        let u = token_update conf env now k.app k.access in
        let p = is_token_doc conf env in
        let (d, ret, holds_token, expires) = returned_token conf env now k.app k.access ds in
        (
          d,
          ap (find_first p) (
                good.update_one_lem s.0 t.0 "kdcloud_tokens" _ u true k.count k.written
                ∙ ap (λ q. update_docs q (token_query conf env) u true ds)
                    (matches-token_query conf env m good))
              ∙ (find_first-upsert p u (token_query conf env) ds
                    (token_update-is_token_doc conf env now k.app k.access)
                    (upserted-is_token_doc conf env now k.app k.access)
                  ∙ ret),
          holds_token ∙ k.same,
        )

    -- and that the next look-up finds it
    pub reads_token :
        (d : Fields)
        → m.find_one t.0 "kdcloud_tokens" (token_query conf env) ≡ ok (some d)
        → get "access_token" d ≡ token
    reads_token d read =
        let (d', found, holds_token) = kept_doc in
        let same : some d ≡ some d' =
          good.find_one_lem t.0 "kdcloud_tokens" _ (some d) read
          ∙ (ap (λ q. find_first q (good.docs t.0 "kdcloud_tokens"))
                (matches-token_query conf env m good)
              ∙ found) in
        ap (get "access_token") (some-injective same) ∙ holds_token

    -- When a renewal has returned a token that is not empty, and the expiry that is stored with it
    -- lies more than the margin ahead, `get_valid_access_token` on the database that the renewal
    -- left returns that token, calls nobody and changes nothing. The database does what its manual
    -- says, and its look-up finds a document.
    pub do_full_refresh-get_valid_access_token :
        (later now2 now3 : ℕ) (d : Fields)
        → m.find_one t.0 "kdcloud_tokens" (token_query conf env) ≡ ok (some d)
        → truthy token ≡ true
        → lasts c (conf.proxy_token_refresh_margin * 1000) later (get "access_token_expires_at" d)
          ≡ ok true
        → get_valid_access_token m post c conf clients env later now2 now3 t ≡ (ok token, t)
    unfolding get_valid_access_token
    do_full_refresh-get_valid_access_token later now2 now3 d read given good_for =
        rw (read, cached_token, reads_token d read, given, good_for) refl
