-- ===== src/Proxy/Tokens/Stored.antt =====
-- proxy-server/app/token_manager.py: what a renewal leaves in the database, and that the next caller
-- reads it.
use open_yzj.Prelude.{
  Bool, List, Option-cases, String, eq_refl, fun_ext, inl, inr, refl, some, true, ℕ, ◌&&◌, ◌∙◌, ◌≡◌,
}
use open_yzj.Value.{Fields, Value, contains, get, get-put, is_text, put}
use open_yzj.Mongo.{
  IsDocumented, Mongo, Update, apply_update, find_first, put_all, returned, upserted,
}
use open_yzj.Mongo.Updates.{get-put_all}
use open_yzj.Proxy.Kdcloud.{Settings}
use open_yzj.Proxy.Tokens.Grants.{token_query, token_update}

module _ (conf : Settings) (env : String) where
  -- the document of the account and the environment
  abbrev pub is_token_doc : Fields → Bool
  is_token_doc d = is_text conf.kdcloud_account_id (get "account_id" d) && is_text env (get "env" d)

  pub matches-token_query :
      (m : Mongo) (good : IsDocumented m) → good.matches (token_query conf env) ≡ is_token_doc
  matches-token_query m good = fun_ext (λ d.
      good.matches-both _ _ d
      ∙ rw (good.matches-where_eq "env") (rw (good.matches-where_eq "account_id") refl))

  module _ (now : ℕ) (app access : Value × Value) where
    abbrev change : Update
    change = token_update conf env now app access

    pub token_update-is_token_doc :
        (d : Fields) → is_token_doc d ≡ true → is_token_doc (apply_update change d) ≡ true
    unfolding apply_update contains
    token_update-is_token_doc d h =
        rw (get-put_all change.set "account_id" d refl, get-put_all change.set "env" d refl) h

    pub upserted-is_token_doc : is_token_doc (upserted (token_query conf env) change) ≡ true
    unfolding upserted get put
    upserted-is_token_doc = rw (eq_refl conf.kdcloud_account_id, eq_refl env) refl

    updated_token :
        (d : Fields)
        → (get "access_token" (apply_update change d) ≡ access.0)
          × (get "access_token_expires_at" (apply_update change d) ≡ access.1)
    unfolding apply_update put_all
    updated_token d = (simp get-put, simp get-put)

    inserted_token :
        (get "access_token" (upserted (token_query conf env) change) ≡ access.0)
        × (get "access_token_expires_at" (upserted (token_query conf env) change) ≡ access.1)
    unfolding upserted apply_update
    inserted_token = updated_token _

    pub returned_token :
        (ds : List Fields)
        → (d : Fields) × (returned is_token_doc (token_query conf env) change true ds ≡ some d)
          × (get "access_token" d ≡ access.0)
          × (get "access_token_expires_at" d ≡ access.1)
    unfolding returned
    returned_token ds = elim (Option-cases (find_first is_token_doc ds)) [
      | inl e ↦ (
        upserted (token_query conf env) change,
        rw (e, returned) refl,
        inserted_token.0,
        inserted_token.1,
      )
      | inr (d, e) ↦
          (apply_update change d, rw (e, returned) refl, (updated_token d).0, (updated_token d).1)
    ]
