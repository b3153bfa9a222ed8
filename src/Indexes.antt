-- ===== src/Indexes.antt =====
-- server/app/db/indexes.py and proxy-server/app/db_indexes.py: the indexes of the collections.
use open_yzj.Value.{Fields, Value, arr, bool, contains, get, int, is_text, null, num, obj, str}
use open_yzj.Mongo.{IsDocumented, Mongo, Query, Update, find_first, upserted}
use open_yzj.Prelude.{
  Bool, Exc, List, Option, Result, String, [], any, eq_sym, false, if◌then◌else◌, none, not, ok,
  raise, refl, some, true, ℕ, ◌&&◌, ◌*◌, ◌==◌, ◌=?◌, ◌||◌, ◌∙◌, ◌∷◌, ◌≡◌,
}

-- the keys, each with whether it is ascending, and the options of `create_index`
pub record Index : Type 0 where
  pub keys : List (String × Bool)
  pub unique : Bool
  pub sparse : Bool
  pub expire_after : Option ℕ

abbrev pub plain_index : List (String × Bool) → Index
plain_index keys = record { keys = keys; unique = false; sparse = false; expire_after = none }

abbrev pub ascending : String → List (String × Bool)
ascending k = (k, true) ∷ []

abbrev pub unique_key : String → Index
unique_key k = record { keys = ascending k; unique = true; sparse = false; expire_after = none }

abbrev pub expiring : List (String × Bool) → ℕ → Index
expiring keys seconds = record {
  keys = keys;
  unique = false;
  sparse = false;
  expire_after = some seconds;
}

abbrev pub robot_id_index : Index
robot_id_index = record {
  keys = ascending "robotId";
  unique = true;
  sparse = true;
  expire_after = none;
}

abbrev pub account_index : Index
account_index = unique_key "account_id"

abbrev pub account_env_index : Index
account_env_index = record {
  keys = ("account_id", true) ∷ ("env", true) ∷ [];
  unique = true;
  sparse = false;
  expire_after = none;
}

-- what `ensure_indexes` of the server creates, in order
abbrev pub server_indexes : List (String × Index)
server_indexes =
    ("messages", plain_index (("robotId", true) ∷ ("time", false) ∷ []))
    ∷ ("messages", plain_index (("operatorOpenid", true) ∷ ("time", false) ∷ []))
    ∷ ("messages", unique_key "msgId")
    ∷ ("sessions", unique_key "sessionId")
    ∷ ("sessions", expiring (ascending "updated_at") 1800)
    ∷ ("command_logs", plain_index (ascending "msgId"))
    ∷ ("command_logs", plain_index (("status", true) ∷ ("created_at", false) ∷ []))
    ∷ ("robots", unique_key "robot_code")
    ∷ ("robots", robot_id_index)
    ∷ ("proxy_clients", unique_key "api_key")
    ∷ ("proxy_clients", unique_key "client_id")
    ∷ ("kdcloud_tokens", account_index)
    ∷ ("kdcloud_tokens", account_env_index)
    ∷ ("proxy_rate_counters", expiring (ascending "created_at") 120)
    ∷ ("proxy_metrics", expiring (("timestamp", false) ∷ []) 2592000)
    ∷ []

-- and of the proxy
abbrev pub proxy_indexes : List (String × Index)
proxy_indexes =
    ("kdcloud_callbacks", plain_index (("endpoint", true) ∷ ("received_at", false) ∷ []))
    ∷ ("kdcloud_callbacks", plain_index (ascending "serial_nos"))
    ∷ ("kdcloud_callbacks", plain_index (ascending "bill_nos"))
    ∷ ("kdcloud_callbacks", expiring (ascending "received_at") (90 * 24 * 3600))
    ∷ []

-- `_safe_create_index` one after the other; `create` is the driver, and what it raises is logged
unfoldable pub ensure_indexes {ℓ} :
    {S : Type ℓ} → (S → String → Index → Result String × S) → List (String × Index) → S → S
ensure_indexes create [] s = s
ensure_indexes create ((c, i) ∷ more) s = ensure_indexes create more (create s c i).1

-- values that an index takes as one; of the others nothing is said
abbrev pub same_scalar : Value → Value → Bool
same_scalar null null = true
same_scalar (bool a) (bool b) = if a then b else not b
same_scalar (int a) (int b) = a =? b
same_scalar (str a) (str b) = a == b
same_scalar _ _ = false

-- a missing field counts as `None`
abbrev pub same_keys : List (String × Bool) → Fields → Fields → Bool
same_keys [] a b = true
same_keys ((k, up) ∷ more) a b = same_scalar (get k a) (get k b) && same_keys more a b

abbrev pub holds_some : List (String × Bool) → Fields → Bool
holds_some [] d = false
holds_some ((k, up) ∷ more) d = contains k d || holds_some more d

-- a sparse index leaves out the documents with none of its keys
abbrev pub is_indexed : Index → Fields → Bool
is_indexed i d = not i.sparse || holds_some i.keys d

-- two documents that a unique index does not admit together
abbrev pub clashes : Index → Fields → Fields → Bool
clashes i a b = i.unique && (is_indexed i a && (is_indexed i b && same_keys i.keys a b))

-- The database has the index: a document that clashes with a stored one is not written.
pub record Enforces (m : Mongo) (good : IsDocumented m) (c : String) (i : Index) : Type 0 where
  pub insert_refused :
      (s : m.State) (d other : Fields)
      → find_first (λ x. clashes i x d) (good.docs s c) ≡ some other
      → (e : Exc) × (t : m.State) × (m.insert_one s c d ≡ (raise e, t))
        × (good.docs t c ≡ good.docs s c)
  pub upsert_refused :
      (s : m.State) (q : Query) (u : Update) (other : Fields)
      → find_first (good.matches q) (good.docs s c) ≡ none
      → find_first (λ x. clashes i x (upserted q u)) (good.docs s c) ≡ some other
      → (e : Exc) × (t : m.State) × (m.update_one s c q u true ≡ (raise e, t))

-- two documents that an index of the server does not admit together in a collection
abbrev pub clashes_in : List (String × Index) → String → Fields → Fields → Bool
clashes_in [] c a b = false
clashes_in ((d, i) ∷ more) c a b = ((d == c) && clashes i a b) || clashes_in more c a b

abbrev pub writes_field : String → Update → Bool
writes_field k u =
    contains k u.set
    || any (λ j. j == k) u.unset
    || any (λ (x : String × ℕ). x.0 == k) u.inc
    || any (λ (x : String × Value × ℕ). x.0 == k) u.push

-- an update that may make two documents clash
abbrev pub writes_key : List (String × Index) → String → Update → Bool
writes_key [] c u = false
writes_key ((d, i) ∷ more) c u =
    ((d == c) && (i.unique && any (λ (k : String × Bool). writes_field (k.0) u) i.keys))
    || writes_key more c u

-- The database is reachable: no call of the driver raises, unless the unique indexes of the server
-- may stand against it. A new document that clashes with none is written, and so is an update that
-- writes no field of a unique index and inserts nothing.
pub record IsReachable (m : Mongo) (good : IsDocumented m) : Type 0 where
  pub finds_one :
      (s : m.State) (c : String) (q : Query) → (r : Option Fields) × (m.find_one s c q ≡ ok r)
  pub finds : (s : m.State) (c : String) (q : Query) → (ds : List Fields) × (m.find s c q ≡ ok ds)
  pub inserts :
      (s : m.State) (c : String) (d : Fields)
      → contains "_id" d ≡ false
      → find_first (λ x. clashes_in server_indexes c x d) (good.docs s c) ≡ none
      → (id : Value) × (t : m.State) × (m.insert_one s c d ≡ (ok id, t))
  pub updates :
      (s : m.State) (c : String) (q : Query) (u : Update)
      → writes_key server_indexes c u ≡ false
      → (n : ℕ) × (t : m.State) × (m.update_one s c q u false ≡ (ok n, t))
  pub finds_and_updates :
      (s : m.State) (c : String) (q : Query) (u : Update)
      → writes_key server_indexes c u ≡ false
      → (r : Option Fields) × (t : m.State) × (m.find_one_and_update s c q u false ≡ (ok r, t))
  pub deletes :
      (s : m.State) (c : String) (q : Query)
      → (n : ℕ) × (t : m.State) × (m.delete_one s c q ≡ (ok n, t))

-- A collection without a unique index takes every new document.
pub never_found : (ds : List Fields) → find_first (λ x. false) ds ≡ none
unfolding find_first
never_found [] = refl
never_found (d ∷ ds) = never_found ds

pub same_scalar-is_text : (s : String) (v : Value) → same_scalar v (str s) ≡ is_text s v
same_scalar-is_text s null = refl
same_scalar-is_text s (bool b) = refl
same_scalar-is_text s (int n) = refl
same_scalar-is_text s (num n) = refl
same_scalar-is_text s (str t) = eq_sym t s
same_scalar-is_text s (arr vs) = refl
same_scalar-is_text s (obj d) = refl

-- A unique index on one field, at a document with a text there.
pub clashes-unique_key :
    (k s : String) (a b : Fields)
    → get k b ≡ str s
    → clashes (unique_key k) a b ≡ is_text s (get k a)
clashes-unique_key k s a b h =
    rw (h, same_scalar-is_text s (get k a)) (and_true_right (is_text s (get k a)))
  where
    and_true_right : (b : Bool) → (b && true) ≡ b
    and_true_right true = refl
    and_true_right false = refl

pub is_text-same_scalar :
    (s : String) (v : Value) → is_text s v ≡ true → same_scalar v (str s) ≡ true
is_text-same_scalar s (str t) h = eq_sym t s ∙ h
is_text-same_scalar s _ h = cc
