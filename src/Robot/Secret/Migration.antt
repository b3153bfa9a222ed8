-- ===== src/Robot/Secret/Migration.antt =====
-- What `get_robot_secret` leaves of a secret that was stored as plain text.
use open_yzj.Robot.Secret.Reading.{get_robot_secret_found}
use open_yzj.Prelude.{
  Option, Result, String, ap, arith, eq_iff, false, is_empty, ok, refl, some, sym, true, ℕ, ◌&&◌,
  ◌==◌, ◌∙◌, ◌≡◌,
}
use open_yzj.Value.{Fields, Value, contains, end, field, get, get-put, is_text, pop, str, truthy}
use open_yzj.Mongo.{IsDocumented, Mongo, apply_update, find_first, update_first, where_eq}
use open_yzj.Mongo.Updates.{find_first-update_first_same, matches_text, update_docs_plain}
use open_yzj.Robot.Message.{test_robot_id}
use open_yzj.Robot.Secret.{
  Vault, get_robot_secret, is_non_prod, migrate, migration, robot_query, secret_in,
}

get-pop : (k j : String) (d : Fields) → (k == j) ≡ false → get j (pop k d) ≡ get j d
unfolding get pop
get-pop k j end h = refl
get-pop k j (field i w d) h = ground (arith, eq_iff k j, eq_iff i k, eq_iff i j, get-pop k j d)

module _ (sealed : Value) (now : ℕ) (d : Fields) where
  migrated_secret : get "appSecret_encrypted" (apply_update (migration sealed now) d) ≡ sealed
  unfolding apply_update
  migrated_secret = get-pop "appSecret" "appSecret_encrypted" _ refl ∙ simp get-put

  migrated_robot : get "robotId" (apply_update (migration sealed now) d) ≡ get "robotId" d
  unfolding apply_update
  migrated_robot = get-pop "appSecret" "robotId" _ refl ∙ simp get-put

module _ (m : Mongo) (good : IsDocumented m) (v : Vault) (env robot_id : String) (now : ℕ)
    (id : String) (doc : Fields) (secret : String) (sealed : Value) (s t : m.State) where
  -- A robot is stored with a plain secret, which encryption turns into something that decrypts to
  -- it, and the update goes through.
  pub record IsMigrating : Type 0 where
    pub real : ((robot_id == test_robot_id) && is_non_prod env) ≡ false
    pub found : m.find_one s "robots" (robot_query robot_id) ≡ ok (some doc)
    pub not_sealed : truthy (get "appSecret_encrypted" doc) ≡ false
    pub plain : get "appSecret" doc ≡ str secret
    pub filled : is_empty secret ≡ false
    pub has_id : contains "_id" doc ≡ true
    pub named : get "_id" doc ≡ str id
    pub first : find_first (λ d. is_text id (get "_id" d)) (good.docs s "robots") ≡ some doc
    pub seals : v.encrypt_secret (str secret) ≡ ok sealed
    pub not_blank : truthy sealed ≡ true
    pub unseals : v.decrypt_secret sealed ≡ ok secret
    pub updates : ℕ
    pub written :
        m.update_one s "robots" (where_eq "_id" (str id)) (migration sealed now) false
        ≡ (ok updates, t)

  module _ (h : IsMigrating) where
    first_reading : secret_in m v now doc s ≡ (ok (str secret), t)
    unfolding secret_in migrate
    first_reading =
        rw (h.not_sealed, h.plain, h.filled, migrate, h.seals, h.has_id, h.named)
          (ap (λ (x : Result ℕ × m.State). (Result.ok (str secret), x.1)) h.written)

    robots_after :
        good.docs t "robots"
        ≡ update_first (λ d. is_text id (get "_id" d)) (migration sealed now) (good.docs s "robots")
    robots_after =
        good.update_one_lem s t "robots" _ _ false h.updates h.written
        ∙ update_docs_plain _ _ _ _
        ∙ ap (λ p. update_first p (migration sealed now) (good.docs s "robots"))
            (matches_text m good "_id" id)

    -- what a reading of the robot finds
    looked_up :
        (db : m.State) (r : Option Fields)
        → m.find_one db "robots" (robot_query robot_id) ≡ ok r
        → find_first (λ d. is_text robot_id (get "robotId" d)) (good.docs db "robots") ≡ r
    looked_up db r read =
        ap (λ p. find_first p (good.docs db "robots"))
          (sym (matches_text m good "robotId" robot_id))
        ∙ sym (good.find_one_lem db "robots" _ r read)

    stored_again :
        find_first (λ d. is_text robot_id (get "robotId" d)) (good.docs t "robots")
        ≡ some (apply_update (migration sealed now) doc)
    stored_again = rw robots_after (
        find_first-update_first_same _ _ _ _ doc h.first (looked_up s (some doc) h.found)
          (ap (is_text robot_id) (migrated_robot sealed now doc)))

    second_reading :
        (later : ℕ)
        → secret_in m v later (apply_update (migration sealed now) doc) t ≡ (ok (str secret), t)
    unfolding secret_in
    second_reading later = rw (migrated_secret sealed now doc, h.not_blank, h.unseals) refl

    -- A robot is stored with a plain secret and none that is encrypted, its document is the first
    -- with its `_id`, the encryption of the secret decrypts to it, and the update goes through.
    -- Then `get_robot_secret` returns the secret and leaves the updated database, and another call
    -- on that database, whose query does not raise, returns the same secret and changes nothing.
    -- The driver is assumed to do what its manual says, and `_id` is taken as a text.
    pub get_robot_secret_migrates :
        (later : ℕ) (r : Option Fields)
        → m.find_one t "robots" (robot_query robot_id) ≡ ok r
        → (get_robot_secret m v env now robot_id s ≡ (ok (str secret), t))
          × (get_robot_secret m v env later robot_id t ≡ (ok (str secret), t))
    get_robot_secret_migrates later r read =
        let kept = apply_update (migration sealed now) doc in
        (
          get_robot_secret_found m v env robot_id h.real s now "appSecret" doc _ h.found
              (rw (h.plain, h.filled) refl) first_reading,
          get_robot_secret_found m v env robot_id h.real t later "appSecret_encrypted" kept _
              (read ∙ ap ok (sym (looked_up t r read) ∙ stored_again))
              (rw (migrated_secret sealed now doc) h.not_blank) (second_reading later),
        )
