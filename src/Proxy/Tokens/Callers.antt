-- ===== src/Proxy/Tokens/Callers.antt =====
-- proxy-server/app/token_manager.py: the callers that come after a renewal, and those that have
-- waited for the lock meanwhile. The lock lets one in after the other.
use open_yzj.Prelude.{List, Result, String, [], map, ok, refl, some, true, ℕ, ◌*◌, ◌∷◌, ◌≡◌}
use open_yzj.Prelude.Effect.{Effect}
use open_yzj.Value.{Fields, Value, get, truthy}
use open_yzj.Value.Methods.{Codec}
use open_yzj.Mongo.{IsDocumented, Mongo}
use open_yzj.Proxy.Forwarder.Send.{Response}
use open_yzj.Proxy.Kdcloud.{Settings}
use open_yzj.Proxy.Kdcloud.Gateway.{Clients}
use open_yzj.Proxy.Tokens.Grants.{cached_token, lasts, token_query}
use open_yzj.Proxy.Tokens.Manager.{do_full_refresh, get_locked, get_valid_access_token}
use open_yzj.Proxy.Tokens.Background.{Readings}
use open_yzj.Proxy.Tokens.Kept.{do_full_refresh-get_valid_access_token, reads_token}

-- a caller that comes, or one that goes on with the lock
pub data Caller : Type 0 where
  comes : Readings → Caller
  waited : Readings → Caller

module _ (m : Mongo) {N : Type 0}
    (post : N → String → String → Fields → Fields → Result Response × N) (c : Codec)
    (conf : Settings) (clients : Clients) (env : String) where
  unfoldable pub answer_caller : Caller → Effect (m.State × N) Value
  unfolding get_valid_access_token get_locked
  answer_caller (comes r) = get_valid_access_token m post c conf clients env r.now r.now2 r.now3
  answer_caller (waited r) = get_locked m post c conf clients env r.now2 r.now3

  -- the answers, in order, and what is left
  unfoldable pub answer_all : List Caller → m.State × N → List (Result Value) × (m.State × N)
  unfolding answer_caller
  answer_all [] s = ([], s)
  answer_all (caller ∷ callers) s =
      let (r, t) = answer_caller caller s in let (rs, u) = answer_all callers t in (r ∷ rs, u)

  -- The expiry lies further ahead of the caller's clock than the margin that is asked of it.
  abbrev pub IsInTime : Value → Caller → Type 0
  IsInTime expires (comes r) =
      lasts c (conf.proxy_token_refresh_margin * 1000) r.now expires ≡ ok true
  IsInTime expires (waited r) = lasts c 60000 r.now2 expires ≡ ok true

  abbrev pub AreInTime : Value → List Caller → Type 0
  AreInTime expires [] = Unit {0}
  AreInTime expires (caller ∷ callers) = IsInTime expires caller × AreInTime expires callers

  module _ (good : IsDocumented m) (now : ℕ) (s t : m.State × N) (token : Value)
      (done : do_full_refresh m post c conf clients env now s ≡ (ok token, t)) (d : Fields)
      (read : m.find_one t.0 "kdcloud_tokens" (token_query conf env) ≡ ok (some d))
      (given : truthy token ≡ true) where
    answered :
        (caller : Caller)
        → IsInTime (get "access_token_expires_at" d) caller
        → answer_caller caller t ≡ (ok token, t)
    unfolding answer_caller
    answered (comes r) in_time =
        do_full_refresh-get_valid_access_token m post c conf clients env good now s t token done
          r.now r.now2 r.now3 d read given in_time
    answered (waited r) in_time =
        rw
          (
            read,
            cached_token,
            reads_token m post c conf clients env good now s t token done d read,
            given,
            in_time,
          )
          refl

    -- Once a renewal has returned a token that is not empty, every caller that comes after it, and
    -- every caller that goes on after waiting for the lock, gets that token, in whatever order they
    -- come; nobody calls the vendor and nothing changes. The expiry that is stored with the token,
    -- as the process reads it in its timezone, lies more than the margin ahead of the clock of a
    -- caller that comes, and more than a minute ahead of that of one that waited. The database does
    -- what its manual says, and its look-up finds a document.
    pub do_full_refresh-answer_all :
        (callers : List Caller)
        → AreInTime (get "access_token_expires_at" d) callers
        → answer_all callers t ≡ (map (λ caller. ok token) callers, t)
    unfolding answer_all
    do_full_refresh-answer_all [] in_time = refl
    do_full_refresh-answer_all (caller ∷ callers) in_time =
        rw (answered caller in_time.0) (rw (do_full_refresh-answer_all callers in_time.1) refl)
