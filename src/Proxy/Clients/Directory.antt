-- ===== src/Proxy/Clients/Directory.antt =====
-- The administration of the clients as calls on a map from ids to documents.
use mathlib.Core.Option
use open_yzj.Prelude.{
  List, Option, Result, String, ap, false, http_exception, if◌then◌else◌, is_some, none, ok, raise,
  refl, some, subst, sym, true, ℕ, ◌∙◌, ◌≡◌,
}
use open_yzj.Value.{Fields, Value, bool, contains, contains-given_field, end, field, get, put, str}
use open_yzj.Indexes.{IsReachable}
use open_yzj.Proxy.Clients.Indexed.{doc-unclashing, doc-unkeyed, update-writes_key}
use open_yzj.Mongo.{IsDocumented, Mongo, Update, apply_update, returned, update_first, where_eq}
use open_yzj.Mongo.Keyed.{
  IsKeyed, IsNamed, by_key, by_key-append, by_key-delete, by_key-update, found_by_name, holds,
  looked_up, override, override_same, unfound, update_first_missed,
}
use open_yzj.Mongo.Updates.{find_first_sound, get-set_update, matches_text, update_docs_plain}
use open_yzj.Proxy.Clients.{
  Call, ProxyClientCreateReq, ProxyClientUpdateReq, client_doc, client_update, create_proxy_client,
  creates, delete_proxy_client, deleted, deletes, get_proxy_client, not_found, reads, run, shown,
  to_public, update_proxy_client, updates,
}

abbrev pub Directory : Type 0
Directory = String → Option Fields

-- The clients of a collection: their ids and their API keys differ, and each has an id.
pub record IsRegistry (ds : List Fields) : Type 0 where
  pub ids : IsKeyed "client_id" ds
  pub keys : IsKeyed "api_key" ds
  pub named : IsNamed "client_id" ds

-- `update_proxy_client` sets neither the id nor the API key.
module _ (now : ℕ) (req : ProxyClientUpdateReq) (sealed : Option String) (d : Fields) where
  pub update-client_id :
      get "client_id" (apply_update (client_update now req sealed) d) ≡ get "client_id" d
  unfolding contains
  update-client_id = get-set_update _ "client_id" d (simp contains-given_field)

  pub update-api_key :
      get "api_key" (apply_update (client_update now req sealed) d) ≡ get "api_key" d
  unfolding contains
  update-api_key = get-set_update _ "api_key" d (simp contains-given_field)

module _ (encrypt : String → String) (now : ℕ) where
  abbrev pub sealed_update : ProxyClientUpdateReq → Update
  sealed_update req = client_update now req (Option.map encrypt req.api_secret)

  abbrev pub new_doc : Value → ProxyClientCreateReq → Fields
  new_doc id req = put "_id" id (client_doc now req (encrypt req.api_secret))

  pub new_doc-client_id :
      (id : Value) (req : ProxyClientCreateReq)
      → get "client_id" (new_doc id req) ≡ str req.client_name
  unfolding get put
  new_doc-client_id id req = refl

  pub new_doc-api_key :
      (id : Value) (req : ProxyClientCreateReq) → get "api_key" (new_doc id req) ≡ str req.api_key
  unfolding get put
  new_doc-api_key id req = refl

  -- What each call promises: from a map to an answer and a map.
  pub data Promises : Call → Directory → Result Fields → Directory → Type 0 where
    created :
        {req : ProxyClientCreateReq} {f : Directory} (id : Value)
        → f req.client_name ≡ none
        → ((name : String) (d : Fields) → f name ≡ some d → holds "api_key" req.api_key d ≡ false)
        → Promises
            (creates req)
            f
            (ok (to_public now (client_doc now req (encrypt req.api_secret))))
            (override f req.client_name (some (new_doc id req)))
    key_taken :
        {req : ProxyClientCreateReq} {f : Directory} (name : String) (d : Fields)
        → f name ≡ some d
        → holds "api_key" req.api_key d ≡ true
        → Promises (creates req) f (raise (http_exception 409 "api_key already exists")) f
    name_taken :
        {req : ProxyClientCreateReq} {f : Directory} (d : Fields)
        → f req.client_name ≡ some d
        → Promises (creates req) f (raise (http_exception 409 "client_name already exists")) f
    read : {name : String} {f : Directory} → Promises (reads name) f (shown now (f name)) f
    updated :
        {name : String} {req : ProxyClientUpdateReq} {f : Directory} (d : Fields)
        → f name ≡ some d
        → Promises
            (updates name req)
            f
            (ok (to_public now (apply_update (sealed_update req) d)))
            (override f name (some (apply_update (sealed_update req) d)))
    deleted_one :
        {name : String} {f : Directory} (d : Fields)
        → f name ≡ some d
        → Promises (deletes name) f (ok (field "deleted" (bool true) end)) (override f name none)
    unknown_update :
        {name : String} {req : ProxyClientUpdateReq} {f : Directory}
        → f name ≡ none
        → Promises (updates name req) f (raise not_found) f
    unknown_delete :
        {name : String} {f : Directory}
        → f name ≡ none
        → Promises (deletes name) f (raise not_found) f

module _ (m : Mongo) (good : IsDocumented m) (up : IsReachable m good) (encrypt : String → String)
    (now : ℕ) where
  abbrev pub clients : m.State → List Fields
  clients s = good.docs s "proxy_clients"

  -- the map that a state stands for
  abbrev pub directory : m.State → Directory
  directory s = by_key "client_id" (clients s)

  Kept : Call → m.State → Type 0
  Kept call s =
      Promises encrypt now call (directory s) (run m encrypt now call s).0
        (directory (run m encrypt now call s).1)

  by_id : (name : String) → good.matches (where_eq "client_id" (str name)) ≡ holds "client_id" name
  by_id name = matches_text m good "client_id" name

  reads-Promises : (name : String) (s : m.State) → Kept (reads name) s
  unfolding get_proxy_client Kept
  reads-Promises name s =
      let (r, h) = up.finds_one s "proxy_clients" (where_eq "client_id" (str name)) in
      rw h (
        subst (λ x. Promises encrypt now (reads name) (directory s) (shown now x) (directory s))
          (looked_up m good s "proxy_clients" "client_id" name r h) read)

  moved :
      {call : Call} {f g g' : Directory} {r r' : Result Fields}
      → Promises encrypt now call f r g
      → r ≡ r'
      → g ≡ g'
      → Promises encrypt now call f r' g'
  moved {call} {f} {g} {g'} {r} {r'} h e k =
      subst (λ x. Promises encrypt now call f x g') e
        (subst (λ y. Promises encrypt now call f r y) k h)

  module _ (name : String) (s : m.State) where
    deleted-Promises :
        (n : ℕ) (t : m.State) (found : Option Fields)
        → directory s name ≡ found
        → directory t ≡ override (directory s) name none
        → n ≡ (if is_some found then 1 else 0)
        → Promises encrypt now (deletes name) (directory s) (deleted n) (directory t)
    deleted-Promises n t none there left count =
        moved (unknown_delete there) (ap deleted (sym count))
          (sym (left ∙ override_same (directory s) name there))
    deleted-Promises n t (some d) there left count =
        moved (deleted_one d there) (ap deleted (sym count)) (sym left)

    deletes-Promises : IsRegistry (clients s) → Kept (deletes name) s
    unfolding delete_proxy_client Kept
    deletes-Promises reg =
        let (n, t, h) = up.deletes s "proxy_clients" (where_eq "client_id" (str name)) in
        let (after, count) = good.delete_one_lem s t "proxy_clients" _ n h in
        rw h (
          deleted-Promises n t (directory s name) refl
            (rw after (rw (by_id name) (by_key-delete "client_id" (clients s) name reg.ids)))
            (rw (by_id name) at count))

    module _ (req : ProxyClientUpdateReq) where
      abbrev u : Update
      u = sealed_update encrypt now req

      same_id : (d : Fields) → get "client_id" (apply_update u d) ≡ get "client_id" d
      same_id d = update-client_id now req (Option.map encrypt req.api_secret) d

      updated-Promises :
          (t : m.State) (r found : Option Fields)
          → directory s name ≡ found
          → clients t ≡ update_first (holds "client_id" name) u (clients s)
          → r
            ≡ returned
                (holds "client_id" name)
                (where_eq "client_id" (str name))
                u
                false
                (clients s)
          → Promises encrypt now (updates name req) (directory s) (shown now r) (directory t)
      unfolding returned
      updated-Promises t r none there after ret =
          let got : returned (holds "client_id" name) (where_eq "client_id" (str name)) u false
                (clients s)
              ≡ none =
            rw (there, returned) in
          moved (unknown_update there) (ap (shown now) (sym (ret ∙ got))) (
            ap (by_key "client_id")
              (sym (after ∙ update_first_missed (holds "client_id" name) u (clients s) there)))
      updated-Promises t r (some d) there after ret =
          let got : returned (holds "client_id" name) (where_eq "client_id" (str name)) u false
                (clients s)
              ≡ some (apply_update u d) =
            rw (there, returned) in
          moved (updated d there) (ap (shown now) (sym (ret ∙ got))) (
            sym (
              ap (by_key "client_id") after
              ∙ by_key-update "client_id" (clients s) name u d same_id there))

      updates-Promises : Kept (updates name req) s
      unfolding update_proxy_client Kept
      updates-Promises =
          let (r, t, h) =
            up.finds_and_updates s "proxy_clients" (where_eq "client_id" (str name)) u
              (update-writes_key now req (Option.map encrypt req.api_secret)) in
          let (after, ret) = good.find_one_and_update_lem s t "proxy_clients" _ u false r h in
          rw h (
            updated-Promises t r (directory s name) refl
              (rw (by_id name) at after ∙ update_docs_plain _ u _ (clients s))
              (rw (by_id name) at ret))

  creates_from :
      (req : ProxyClientCreateReq) (s : m.State) (r1 r2 : Option Fields)
      → m.find_one s "proxy_clients" (where_eq "api_key" (str req.api_key)) ≡ ok r1
      → m.find_one s "proxy_clients" (where_eq "client_id" (str req.client_name)) ≡ ok r2
      → IsRegistry (clients s)
      → Kept (creates req) s
  unfolding create_proxy_client Kept
  creates_from req s (some d) r2 h1 h2 reg =
      let found = looked_up m good s "proxy_clients" "api_key" req.api_key (some d) h1 in
      let (name, there) =
        found_by_name "client_id" (holds "api_key" req.api_key) (clients s) d reg.ids reg.named
          found in
      rw h1 (
        key_taken name d there (find_first_sound (holds "api_key" req.api_key) (clients s) d found))
  creates_from req s none (some d) h1 h2 reg =
      rw (h1, h2)
        (name_taken d (looked_up m good s "proxy_clients" "client_id" req.client_name (some d) h2))
  creates_from req s none none h1 h2 reg =
      let free = looked_up m good s "proxy_clients" "client_id" req.client_name none h2 in
      let (id, t, h) =
        up.inserts s "proxy_clients" (client_doc now req (encrypt req.api_secret))
          (doc-unkeyed now req (encrypt req.api_secret))
          (doc-unclashing now req (encrypt req.api_secret) (clients s)
            (looked_up m good s "proxy_clients" "api_key" req.api_key none h1) free) in
      rw (h1, h2, h)
        (moved
          (created id free (λ name d there.
            unfound (holds "api_key" req.api_key) (holds "client_id" name) (clients s) d
              (looked_up m good s "proxy_clients" "api_key" req.api_key none h1) there))
          refl
          (sym (
            ap (by_key "client_id") (good.insert_one_lem s t "proxy_clients" _ id h)
            ∙ by_key-append "client_id" (clients s) (new_doc encrypt now id req) req.client_name
                (new_doc-client_id encrypt now id req) free)))

  -- Where the clients of the database have ids that are texts, and ids and API keys that differ,
  -- and where the database does what its manual says and no call of it raises but where a unique
  -- index may stand against it, each of the create, read, update and delete calls of the
  -- administration does to the map from ids to documents what `Promises` says: a new client is
  -- added under its name unless its key or its name is taken, which is refused with 409; a read
  -- answers with the public part; an update changes that client alone; a deletion removes it; and
  -- the last three answer 404 where there is no such client. Refused calls leave the map as it is.
  pub run-Promises :
      (call : Call) (s : m.State)
      → IsRegistry (clients s)
      → Promises encrypt now call
          (directory s)
          (run m encrypt now call s).0
          (directory (run m encrypt now call s).1)
  unfolding Kept
  run-Promises (creates req) s reg =
      creates_from req s _ _ (up.finds_one s "proxy_clients" _).1
        (up.finds_one s "proxy_clients" _).1 reg
  run-Promises (reads name) s reg = reads-Promises name s
  run-Promises (updates name req) s reg = updates-Promises name s req
  run-Promises (deletes name) s reg = deletes-Promises name s reg
