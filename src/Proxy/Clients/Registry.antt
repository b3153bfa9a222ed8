-- ===== src/Proxy/Clients/Registry.antt =====
-- That the administration keeps the ids and the API keys of the clients apart.
use mathlib.Core.Option
use open_yzj.Prelude.{List, Option, String, [], false, none, ok, some, ℕ, ◌∷◌, ◌≡◌}
use open_yzj.Value.{Fields, str}
use open_yzj.Indexes.{IsReachable}
use open_yzj.Proxy.Clients.Indexed.{doc-unclashing, doc-unkeyed, update-writes_key}
use open_yzj.Mongo.{IsDocumented, Mongo, where_eq}
use open_yzj.Mongo.Keyed.{
  append-IsKeyed, append-IsNamed, delete-IsKeyed, delete-IsNamed, fresh_name, looked_up,
  update-IsKeyed, update-IsNamed,
}
use open_yzj.Mongo.Updates.{update_docs_plain}
use open_yzj.Proxy.Clients.{
  Call, ProxyClientCreateReq, ProxyClientUpdateReq, client_doc, create_proxy_client, creates,
  delete_proxy_client, deletes, get_proxy_client, reads, run, update_proxy_client, updates,
}
use open_yzj.Proxy.Clients.Directory.{
  IsRegistry, new_doc, new_doc-api_key, new_doc-client_id, sealed_update, update-api_key,
  update-client_id,
}

-- A call, the time at which it is made and the encryption with the random bytes of that time.
pub record AdminCall : Type 0 where
  pub now : ℕ
  pub encrypt : String → String
  pub call : Call

-- the state after a sequence of calls
unfoldable pub run_all : (m : Mongo) → List AdminCall → m.State → m.State
run_all m [] s = s
run_all m (r ∷ rs) s = run_all m rs (run m r.encrypt r.now r.call s).1

module _ (m : Mongo) (good : IsDocumented m) (up : IsReachable m good) where
  abbrev stored : m.State → List Fields
  stored s = good.docs s "proxy_clients"

  module _ (encrypt : String → String) (now : ℕ) where
    creates-IsRegistry :
        (req : ProxyClientCreateReq) (s : m.State) (r1 r2 : Option Fields)
        → m.find_one s "proxy_clients" (where_eq "api_key" (str req.api_key)) ≡ ok r1
        → m.find_one s "proxy_clients" (where_eq "client_id" (str req.client_name)) ≡ ok r2
        → IsRegistry (stored s)
        → IsRegistry (stored (create_proxy_client m encrypt now req s).1)
    unfolding create_proxy_client
    creates-IsRegistry req s (some d) r2 h1 h2 reg = rw h1 reg
    creates-IsRegistry req s none (some d) h1 h2 reg = rw (h1, h2) reg
    creates-IsRegistry req s none none h1 h2 reg =
        let (id, t, h) =
          up.inserts s "proxy_clients" (client_doc now req (encrypt req.api_secret))
            (doc-unkeyed now req (encrypt req.api_secret))
            (doc-unclashing now req (encrypt req.api_secret) (stored s)
              (looked_up m good s "proxy_clients" "api_key" req.api_key none h1)
              (looked_up m good s "proxy_clients" "client_id" req.client_name none h2)) in
        let look = looked_up m good s "proxy_clients" in
        let doc = new_doc encrypt now id req in
        let named = new_doc-client_id encrypt now id req in
        rw (h1, h2, h)
          (rw (good.insert_one_lem s t "proxy_clients" _ id h) (record {
            ids = append-IsKeyed "client_id" (stored s) doc reg.ids (
                fresh_name "client_id" (stored s) doc req.client_name named
                  (look "client_id" req.client_name none h2));
            keys = append-IsKeyed "api_key" (stored s) doc reg.keys (
                fresh_name "api_key" (stored s) doc req.api_key (new_doc-api_key encrypt now id req)
                  (look "api_key" req.api_key none h1));
            named = append-IsNamed "client_id" (stored s) doc req.client_name reg.named named;
          }))

    updates-IsRegistry :
        (name : String) (req : ProxyClientUpdateReq) (s : m.State)
        → IsRegistry (stored s)
        → IsRegistry (stored (update_proxy_client m encrypt now name req s).1)
    unfolding update_proxy_client
    updates-IsRegistry name req s reg =
        let u = sealed_update encrypt now req in
        let sealed = Option.map encrypt req.api_secret in
        let (r, t, h) =
          up.finds_and_updates s "proxy_clients" (where_eq "client_id" (str name)) u
            (update-writes_key now req sealed) in
        let (after, ret) = good.find_one_and_update_lem s t "proxy_clients" _ u false r h in
        rw h (
          rw (after, update_docs_plain _ u (where_eq "client_id" (str name)) (stored s))
            (record {
              ids =
                  update-IsKeyed "client_id" _ u (stored s) (update-client_id now req sealed)
                    reg.ids;
              keys =
                  update-IsKeyed "api_key" _ u (stored s) (update-api_key now req sealed) reg.keys;
              named =
                  update-IsNamed "client_id" _ u (stored s) (update-client_id now req sealed)
                    reg.named;
            }))

    deletes-IsRegistry :
        (name : String) (s : m.State)
        → IsRegistry (stored s)
        → IsRegistry (stored (delete_proxy_client m encrypt now name s).1)
    unfolding delete_proxy_client
    deletes-IsRegistry name s reg =
        let (n, t, h) = up.deletes s "proxy_clients" (where_eq "client_id" (str name)) in
        let (after, count) = good.delete_one_lem s t "proxy_clients" _ n h in
        rw h (
          rw after (record {
            ids = delete-IsKeyed "client_id" _ (stored s) reg.ids;
            keys = delete-IsKeyed "api_key" _ (stored s) reg.keys;
            named = delete-IsNamed "client_id" _ (stored s) reg.named;
          }))

    run-IsRegistry :
        (call : Call) (s : m.State)
        → IsRegistry (stored s)
        → IsRegistry (stored (run m encrypt now call s).1)
    unfolding get_proxy_client
    run-IsRegistry (creates req) s reg =
        creates-IsRegistry req s _ _ (up.finds_one s "proxy_clients" _).1
          (up.finds_one s "proxy_clients" _).1 reg
    run-IsRegistry (reads name) s reg =
        rw (up.finds_one s "proxy_clients" (where_eq "client_id" (str name))).1 reg
    run-IsRegistry (updates name req) s reg = updates-IsRegistry name req s reg
    run-IsRegistry (deletes name) s reg = deletes-IsRegistry name s reg

  -- When the ids of the clients are texts and their ids and API keys differ, this is so after any
  -- sequence of create, read, update and delete calls, where the database does what its manual says
  -- and no call of it raises but where a unique index may stand against it.
  pub run_all-IsRegistry :
      (rs : List AdminCall) (s : m.State)
      → IsRegistry (good.docs s "proxy_clients")
      → IsRegistry (good.docs (run_all m rs s) "proxy_clients")
  unfolding run_all
  run_all-IsRegistry [] s reg = reg
  run_all-IsRegistry (r ∷ rs) s reg =
      run_all-IsRegistry rs _ (run-IsRegistry r.encrypt r.now r.call s reg)
