-- ===== src/Proxy/Clients.antt =====
-- proxy-server/app/admin.py, the administration of the proxy's clients, with the request models of
-- proxy-server/app/models.py. A stored document is never empty, since it has an `_id`.
pub mod Indexed
pub mod Directory
pub mod Registry
pub mod Enrolment
use mathlib.Core.Option
use open_yzj.Prelude.{
  Exc, List, Option, Result, String, false, http_exception, if◌then◌else◌, map, none, ok, raise,
  some, true, ℕ, ◌=?◌,
}
use open_yzj.Prelude.Effect.{Effect, lift, pure, ◌>>=◌}
use open_yzj.Bytes.{Integer}
use open_yzj.Value.{Fields, arr, bool, end, field, given_field, int, nil, str}
use open_yzj.Value.Methods.{get_default, integer_value, texts}
use open_yzj.Mongo.{Mongo, Update, everything, no_update, where_eq}

-- `ProxyClientCreateReq`
pub record ProxyClientCreateReq : Type 0 where
  pub client_name : String
  pub api_key : String
  pub api_secret : String
  pub allowed_endpoints : List String
  pub rate_limit : Integer
  pub callback_url : String

-- `ProxyClientUpdateReq`
pub record ProxyClientUpdateReq : Type 0 where
  pub client_name : Option String
  pub api_secret : Option String
  pub allowed_endpoints : Option (List String)
  pub rate_limit : Option Integer
  pub status : Option String
  pub callback_url : Option String

-- `_to_public`, a `ProxyClientPublic`; what is stored has the types that it asks for
abbrev pub to_public : ℕ → Fields → Fields
to_public now doc = field "client_id" (get_default "client_id" (str "") doc) (
    field "client_name" (get_default "client_name" (str "") doc) (
      field "api_key" (get_default "api_key" (str "") doc) (
        field "allowed_endpoints" (get_default "allowed_endpoints" (arr nil) doc) (
          field "rate_limit" (get_default "rate_limit" (int 60) doc) (
            field "callback_url" (get_default "callback_url" (str "") doc) (
              field "status" (get_default "status" (str "active") doc) (
                field "created_at" (get_default "created_at" (int now) doc)
                  (field "updated_at" (get_default "updated_at" (int now) doc) end))))))))

-- the document of `create_proxy_client`, whose secret is encrypted already
abbrev pub client_doc : ℕ → ProxyClientCreateReq → String → Fields
client_doc now req sealed = field "client_id" (str req.client_name) (
    field "client_name" (str req.client_name) (
      field "api_key" (str req.api_key) (
        field "api_secret_encrypted" (str sealed) (
          field "allowed_endpoints" (texts req.allowed_endpoints) (
            field "rate_limit" (integer_value req.rate_limit) (
              field "callback_url" (str req.callback_url) (
                field "status" (str "active")
                  (field "created_at" (int now) (field "updated_at" (int now) end)))))))))

-- the `$set` of `update_proxy_client`
abbrev pub client_update : ℕ → ProxyClientUpdateReq → Option String → Update
client_update now req sealed = record no_update {
  set = field "updated_at" (int now) (
      given_field "client_name" str req.client_name (
        given_field "allowed_endpoints" texts req.allowed_endpoints (
          given_field "rate_limit" integer_value req.rate_limit (
            given_field "status" str req.status (
              given_field "callback_url" str req.callback_url
                (given_field "api_secret_encrypted" str sealed end))))));
}

abbrev pub not_found : Exc
not_found = http_exception 404 "proxy client not found"

-- `raise HTTPException` if the query found something
abbrev pub refuse_if : Option Fields → String → Result (Unit {0})
refuse_if none detail = ok tt
refuse_if (some d) detail = raise (http_exception 409 detail)

abbrev pub shown : ℕ → Option Fields → Result Fields
shown now none = raise not_found
shown now (some doc) = ok (to_public now doc)

abbrev pub deleted : ℕ → Result Fields
deleted n = if n =? 0 then raise not_found else ok (field "deleted" (bool true) end)

-- what an administrator may call
pub data Call : Type 0 where
  creates : ProxyClientCreateReq → Call
  reads : String → Call
  updates : String → ProxyClientUpdateReq → Call
  deletes : String → Call

-- `encrypt` is `encrypt_secret`, with the random bytes of the request
module _ (m : Mongo) (encrypt : String → String) (now : ℕ) where
  abbrev pub client_named : String → Effect m.State (Option Fields)
  client_named name db = (m.find_one db "proxy_clients" (where_eq "client_id" (str name)), db)

  abbrev pub client_with_key : String → Effect m.State (Option Fields)
  client_with_key api_key db =
      (m.find_one db "proxy_clients" (where_eq "api_key" (str api_key)), db)

  -- `create_proxy_client`; the answer shows no `_id`
  unfoldable pub create_proxy_client : ProxyClientCreateReq → Effect m.State Fields
  create_proxy_client req = do
    same_key ← client_with_key req.api_key
    free_key ← lift (refuse_if same_key "api_key already exists")
    same_name ← client_named req.client_name
    free_name ← lift (refuse_if same_name "client_name already exists")
    id ← λ db. m.insert_one db "proxy_clients" (client_doc now req (encrypt req.api_secret))
    pure (to_public now (client_doc now req (encrypt req.api_secret)))

  -- `list_proxy_clients`
  unfoldable pub list_proxy_clients : Effect m.State (List Fields)
  list_proxy_clients = do
    docs ← λ db. (m.find db "proxy_clients" everything, db)
    pure (map (to_public now) docs)

  -- `get_proxy_client`
  unfoldable pub get_proxy_client : String → Effect m.State Fields
  get_proxy_client client_id = do doc ← client_named client_id; lift (shown now doc)

  -- `update_proxy_client`
  unfoldable pub update_proxy_client : String → ProxyClientUpdateReq → Effect m.State Fields
  update_proxy_client client_id req = do
    res ← λ db.
        m.find_one_and_update db "proxy_clients" (where_eq "client_id" (str client_id))
          (client_update now req (Option.map encrypt req.api_secret)) false
    lift (shown now res)

  -- `delete_proxy_client`
  unfoldable pub delete_proxy_client : String → Effect m.State Fields
  delete_proxy_client client_id = do
    n ← λ db. m.delete_one db "proxy_clients" (where_eq "client_id" (str client_id))
    lift (deleted n)

  -- the routes of the router, less the list
  abbrev pub run : Call → Effect m.State Fields
  run (creates req) = create_proxy_client req
  run (reads client_id) = get_proxy_client client_id
  run (updates client_id req) = update_proxy_client client_id req
  run (deletes client_id) = delete_proxy_client client_id
