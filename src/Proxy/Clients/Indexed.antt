-- ===== src/Proxy/Clients/Indexed.antt =====
-- The clients of proxy-server/app/admin.py under the unique indexes of server/app/db/indexes.py.
use open_yzj.Prelude.{
  Bool, Bool-cases, List, Option, String, [], ap, false, fun_ext, inl, inr, none, refl, true, ℕ,
  ◌||◌, ◌∙◌, ◌∷◌, ◌≡◌,
}
use open_yzj.Value.{Fields, contains, contains-given_field, get, str}
use open_yzj.Mongo.{find_first}
use open_yzj.Mongo.Keyed.{by_key, holds}
use open_yzj.Indexes.{clashes-unique_key, clashes_in, server_indexes, writes_key}
use open_yzj.Proxy.Clients.{ProxyClientCreateReq, ProxyClientUpdateReq, client_doc, client_update}

found_by_neither :
    (p q : Fields → Bool) (ds : List Fields)
    → find_first p ds ≡ none
    → find_first q ds ≡ none
    → find_first (λ x. p x || q x) ds ≡ none
unfolding find_first
found_by_neither p q [] a b = refl
found_by_neither p q (d ∷ ds) a b = elim (Bool-cases (p d)) [
  | inl e ↦ cc (rw e at a)
  | inr e ↦ elim (Bool-cases (q d)) [
    | inl f ↦ cc (rw f at b)
    | inr f ↦ rw (e, f) (found_by_neither p q ds (rw e at a) (rw f at b))
  ]
]

or_false : (a b : Bool) → (a || (b || false)) ≡ (a || b)
or_false true b = refl
or_false false true = refl
or_false false false = refl

module _ (now : ℕ) where
  module _ (req : ProxyClientCreateReq) (sealed : String) where
    pub doc-unkeyed : contains "_id" (client_doc now req sealed) ≡ false
    unfolding contains
    doc-unkeyed = refl

    doc_key : get "api_key" (client_doc now req sealed) ≡ str req.api_key
    unfolding get
    doc_key = refl

    doc_name : get "client_id" (client_doc now req sealed) ≡ str req.client_name
    unfolding get
    doc_name = refl

    doc-clashes :
        (x : Fields)
        → clashes_in server_indexes "proxy_clients" x (client_doc now req sealed)
          ≡ (holds "api_key" req.api_key x || holds "client_id" req.client_name x)
    doc-clashes x =
        let key = clashes-unique_key "api_key" req.api_key x (client_doc now req sealed) doc_key in
        let name =
          clashes-unique_key "client_id" req.client_name x (client_doc now req sealed) doc_name in
        or_false _ _ ∙ ap2 key name
      where
        ap2 : {a b c d : Bool} → a ≡ b → c ≡ d → (a || c) ≡ (b || d)
        ap2 h k = rw (h, k) refl

    -- A new client with a free key and a free name clashes with none.
    pub doc-unclashing :
        (ds : List Fields)
        → by_key "api_key" ds req.api_key ≡ none
        → by_key "client_id" ds req.client_name ≡ none
        → find_first
            (λ x. clashes_in server_indexes "proxy_clients" x (client_doc now req sealed))
            ds
          ≡ none
    doc-unclashing ds key name =
        ap (λ p. find_first p ds) (fun_ext doc-clashes)
        ∙ found_by_neither (holds "api_key" req.api_key) (holds "client_id" req.client_name) ds key
            name

  pub update-writes_key :
      (req : ProxyClientUpdateReq) (sealed : Option String)
      → writes_key server_indexes "proxy_clients" (client_update now req sealed) ≡ false
  unfolding contains
  update-writes_key req sealed = simp contains-given_field
