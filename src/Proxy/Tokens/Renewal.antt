-- ===== src/Proxy/Tokens/Renewal.antt =====
-- Where the access token that a caller gets comes from, and that a renewed one is kept.
use open_yzj.Prelude.{
  >>=-eq-ok, Bool, Bool-cases, Exc, Option, Result, Result-cases, String, ap, false, if◌then◌else◌,
  inl, inr, none, none-ne-some, ok, ok-injective, raise, refl, some, sym, true, ℕ, ◌*◌, ◌∙◌, ◌≡◌,
  ◌⊎◌,
}
use open_yzj.Prelude.Effect.{ok_pair, raise_pair, recover}
use open_yzj.Value.{Fields, Value, get, truthy}
use open_yzj.Value.Methods.{Codec}
use open_yzj.Mongo.{Mongo}
use open_yzj.Proxy.Forwarder.Send.{Response}
use open_yzj.Proxy.Kdcloud.{Settings}
use open_yzj.Proxy.Kdcloud.Gateway.{Clients}
use open_yzj.Proxy.Tokens.Grants.{cached_token, lasts, token_query}
use open_yzj.Proxy.Tokens.Manager.{do_full_refresh, fall_back, get_locked, get_valid_access_token}

-- A document whose access token is set and is valid for more than `margin` after `now`.
pub record IsLasting (c : Codec) (margin now : ℕ) (token : Value) (doc : Fields) : Type 0 where
  pub here : get "access_token" doc ≡ token
  pub given : truthy token ≡ true
  pub good : lasts c margin now (get "access_token_expires_at" doc) ≡ ok true

picked_lem :
    (c : Codec) (margin now : ℕ) (d : Fields) (token : Value) (good : Bool)
    → lasts c margin now (get "access_token_expires_at" d) ≡ ok good
    → truthy (get "access_token" d) ≡ true
    → ok (if good then some (get "access_token" d) else none) ≡ Result.ok (some token)
    → (x : Fields) × (Option.some d ≡ some x) × IsLasting c margin now token x
picked_lem c margin now d token true lasting given h =
    let same : get "access_token" d ≡ token = cc in
    (d, refl, record { here = same; given = ap truthy (sym same) ∙ given; good = lasting })
picked_lem c margin now d token false lasting given h = cc

cached_token_sound :
    (c : Codec) (margin now : ℕ) (doc : Option Fields) (token : Value)
    → cached_token c margin now doc ≡ ok (some token)
    → (d : Fields) × (doc ≡ some d) × IsLasting c margin now token d
unfolding cached_token
cached_token_sound c margin now none token h = cc
cached_token_sound c margin now (some d) token h =
    elim (Bool-cases (truthy (get "access_token" d))) [
      | inr e ↦ absurd (none-ne-some (ok-injective (rw e at h)))
      | inl e ↦
          let (good, lasting, picked) =
            >>=-eq-ok (lasts c margin now (get "access_token_expires_at" d)) _ (rw e at h) in
          picked_lem c margin now d token good lasting e picked
    ]

module _ (m : Mongo) {N : Type 0}
    (post : N → String → String → Fields → Fields → Result Response × N) (c : Codec)
    (conf : Settings) (clients : Clients) (env : String) where
  -- Where a token that `get_valid_access_token` returns comes from, with what is left: a cached
  -- one, a renewed one, or the old one when the renewal raised.
  pub data IsServed (now now2 now3 : ℕ) (s : m.State × N) (token : Value) (t : m.State × N)
      : Type 0 where
    cached :
        (doc : Fields)
        → m.find_one s.0 "kdcloud_tokens" (token_query conf env) ≡ ok (some doc)
        → IsLasting c (conf.proxy_token_refresh_margin * 1000) now token doc
          ⊎ IsLasting c 60000 now2 token doc
        → t ≡ s
        → IsServed now now2 now3 s token t
    renewed :
        do_full_refresh m post c conf clients env now3 s ≡ (ok token, t)
        → IsServed now now2 now3 s token t
    stale :
        (doc : Fields) (e : Exc)
        → m.find_one s.0 "kdcloud_tokens" (token_query conf env) ≡ ok (some doc)
        → get "access_token" doc ≡ token
        → truthy token ≡ true
        → do_full_refresh m post c conf clients env now3 s ≡ (raise e, t)
        → IsServed now now2 now3 s token t

  do_full_refresh-IsServed :
      (now now2 now3 : ℕ) (s : m.State × N) (doc : Option Fields) (w : Result Value × (m.State × N))
      (token : Value) (t : m.State × N)
      → m.find_one s.0 "kdcloud_tokens" (token_query conf env) ≡ ok doc
      → do_full_refresh m post c conf clients env now3 s ≡ w
      → recover w.0 (fall_back m post c conf clients env doc) w.1 ≡ (ok token, t)
      → IsServed now now2 now3 s token t
  do_full_refresh-IsServed now now2 now3 s doc (ok v, u) token t read done h = renewed (done ∙ h)
  do_full_refresh-IsServed now now2 now3 s none (raise e, u) token t read done h = cc
  do_full_refresh-IsServed now now2 now3 s (some d) (raise e, u) token t read done h =
      elim (Bool-cases (truthy (get "access_token" d))) [
        | inl given ↦
            let (same, left) = ok_pair (rw given at h) in
            stale d e read same (ap truthy (sym same) ∙ given) (rw left done)
        | inr missing ↦ absurd (raise_pair (rw missing at h))
      ]

  get_locked-IsServed :
      (now now2 now3 : ℕ) (s t : m.State × N) (doc : Option Fields) (hit : Option Value)
      (token : Value)
      → m.find_one s.0 "kdcloud_tokens" (token_query conf env) ≡ ok doc
      → cached_token c 60000 now2 doc ≡ ok hit
      → get_locked m post c conf clients env now2 now3 s ≡ (ok token, t)
      → IsServed now now2 now3 s token t
  unfolding get_locked
  get_locked-IsServed now now2 now3 (db, n) t doc (some v) token read look h =
      let (d, found, lasting) = cached_token_sound c 60000 now2 doc v look in
      let (same, left) = ok_pair (rw (read, look) at h) in
      cached d (read ∙ ap ok found) (inr (rw (sym same) lasting)) left
  get_locked-IsServed now now2 now3 (db, n) t doc none token read look h =
      do_full_refresh-IsServed now now2 now3 (db, n) doc
        (do_full_refresh m post c conf clients env now3 (db, n)) token t read refl
        (rw (read, look) at h)

  -- When `get_valid_access_token` returns a token, it is a stored one that is valid, by its expiry
  -- as the process reads it in its timezone, for longer than the margin or, under the lock, for
  -- more than a minute, and nothing has changed; or the one that the renewal returned; or the
  -- stored one, when the renewal raised.
  pub get_valid_access_token-IsServed :
      (now now2 now3 : ℕ) (s t : m.State × N) (token : Value)
      → get_valid_access_token m post c conf clients env now now2 now3 s ≡ (ok token, t)
      → IsServed now now2 now3 s token t
  unfolding get_valid_access_token
  get_valid_access_token-IsServed now now2 now3 (db, n) t token h =
      elim (Result-cases (m.find_one db "kdcloud_tokens" (token_query conf env))) [
        | inr (e, read) ↦ absurd (raise_pair (rw read at h))
        | inl (doc, read) ↦
            elim (Result-cases (cached_token c (conf.proxy_token_refresh_margin * 1000) now doc)) [
              | inr (e, look) ↦ absurd (raise_pair (rw (read, look) at h))
              | inl (none, look) ↦ elim (Result-cases (cached_token c 60000 now2 doc)) [
                | inr (e, again) ↦ absurd (raise_pair (rw (read, again) at rw (read, look) at h))
                | inl (hit, again) ↦
                    get_locked-IsServed now now2 now3 (db, n) t doc hit token read again
                      (rw (read, look) at h)
              ]
              | inl (some v, look) ↦
                  let (d, found, lasting) =
                    cached_token_sound c (conf.proxy_token_refresh_margin * 1000) now doc v look in
                  let (same, left) = ok_pair (rw (read, look) at h) in
                  cached d (read ∙ ap ok found) (inl (rw (sym same) lasting)) left
            ]
      ]
