-- ===== src/Proxy/Tokens/Environments.antt =====
-- proxy-server/app/token_manager.py with server/app/db/indexes.py: two environments of one account.
use open_yzj.Prelude.{
  Result, String, arith, none, none-ne-some, ok, ok-injective, refl, sym, true, ℕ, ◌∙◌, ◌≡◌,
}
use open_yzj.Prelude.Effect.{raise_pair}
use open_yzj.Value.{Fields, Value, get, is_text, put}
use open_yzj.Value.Methods.{Codec}
use open_yzj.Mongo.{IsDocumented, Mongo, apply_update, upserted}
use open_yzj.Mongo.Updates.{find_first_sound, found_too}
use open_yzj.Indexes.{Enforces, account_index, clashes, is_text-same_scalar}
use open_yzj.Proxy.Forwarder.Send.{Response}
use open_yzj.Proxy.Kdcloud.{Settings}
use open_yzj.Proxy.Kdcloud.Gateway.{Clients}
use open_yzj.Proxy.Tokens.Grants.{token_query, token_update}
use open_yzj.Proxy.Tokens.Manager.{do_full_refresh, get_valid_access_token}
use open_yzj.Proxy.Tokens.Renewal.{
  IsServed, cached, get_valid_access_token-IsServed, renewed, stale,
}
use open_yzj.Proxy.Tokens.Stored.{is_token_doc}
use open_yzj.Proxy.Tokens.Kept.{do_full_refresh-IsStored, kept_doc}

module _ (m : Mongo) {N : Type 0}
    (post : N → String → String → Fields → Fields → Result Response × N) (c : Codec)
    (conf : Settings) (clients : Clients) (env other : String) (good : IsDocumented m)
    (index : Enforces m good "kdcloud_tokens" account_index) where
  -- a document of one environment keeps out that of the other
  upserted-clashes :
      (now : ℕ) (app access : Value × Value) (d : Fields)
      → is_token_doc conf env d ≡ true
      → clashes account_index d
          (upserted (token_query conf other) (token_update conf other now app access))
        ≡ true
  unfolding upserted apply_update get put
  upserted-clashes now app access d h =
      let account : is_text conf.kdcloud_account_id (get "account_id" d) ≡ true = ground arith in
      rw (is_text-same_scalar conf.kdcloud_account_id (get "account_id" d) account) refl

  module _ (first : ℕ) (s t : m.State × N) (token : Value)
      (done : do_full_refresh m post c conf clients env first s ≡ (ok token, t))
      (missing : m.find_one t.0 "kdcloud_tokens" (token_query conf other) ≡ ok none) where
    renewal_refused :
        (now : ℕ) (u : m.State × N) (second : Value)
        → ¬ (do_full_refresh m post c conf clients other now t ≡ (ok second, u))
    renewal_refused now u second h =
        let k = do_full_refresh-IsStored m post c conf clients other now t u second h in
        let (d, found, holds_token) =
          kept_doc m post c conf clients env good first s t token done in
        let mine =
          find_first_sound (is_token_doc conf env) (good.docs t.0 "kdcloud_tokens") d found in
        let (x, clash) =
          found_too (is_token_doc conf env) _ (good.docs t.0 "kdcloud_tokens") d found
            (upserted-clashes now k.app k.access d mine) in
        let (e, w, refused) =
          index.upsert_refused t.0 (token_query conf other) _ x
            (sym (good.find_one_lem t.0 "kdcloud_tokens" _ none missing)) clash in
        raise_pair (sym refused ∙ k.written)

    -- With the unique index on the account alone, once the token of one environment is stored,
    -- `get_valid_access_token` returns no token for another environment of the account that has no
    -- document yet. The database does what its manual says.
    pub get_valid_access_token_refused :
        (now now2 now3 : ℕ) (u : m.State × N) (second : Value)
        → ¬ (get_valid_access_token m post c conf clients other now now2 now3 t ≡ (ok second, u))
    get_valid_access_token_refused now now2 now3 u second h =
        from_served
          (get_valid_access_token-IsServed m post c conf clients other now now2 now3 t u second h)
      where
        from_served : IsServed m post c conf clients other now now2 now3 t second u → ⊥
        from_served (cached doc read lasting same) =
            none-ne-some (ok-injective (sym missing ∙ read))
        from_served (renewed again) = renewal_refused now3 u second again
        from_served (stale doc e read here given lost) =
            none-ne-some (ok-injective (sym missing ∙ read))
