-- ===== src/Mongo.antt =====
-- The database driver, which is not part of the repository: its calls are the operations of an
-- interface over an unknown state, and what its manual says of them is `IsDocumented`.
pub mod Keyed
pub mod Memory
pub mod Updates
use open_yzj.Prelude.{
  Bool, List, Option, Result, String, [], drop, false, if◌then◌else◌, is_some, length, none, not,
  ok, some, true, ℕ, ◌&&◌, ◌++◌, ◌+◌, ◌-◌, ◌==◌, ◌||◌, ◌∷◌, ◌≡◌,
}
use open_yzj.Value.{
  Fields, Value, arr, as_list, as_number, end, field, get, int, is_text, of_list, pop, put, str,
}

-- `{}`, `{k: v}`, `{"$or": [p, q]}` and `{k: v, j: w}`
pub data Query : Type 0 where
  everything : Query
  where_eq : String → Value → Query
  either both : Query → Query → Query

-- `$set`, `$setOnInsert`, `$unset`, `$inc`, and `$push` of one value with `$slice: -keep`
pub record Update : Type 0 where
  pub set : Fields
  pub set_on_insert : Fields
  pub unset : List String
  pub inc : List (String × ℕ)
  pub push : List (String × Value × ℕ)

abbrev pub no_update : Update
no_update = record { set = end; set_on_insert = end; unset = []; inc = []; push = [] }

-- The last argument of the two updates is `upsert`; an update that raises may have been made.
pub record Mongo : Type 1 where
  pub State : Type 0
  pub find_one : State → String → Query → Result (Option Fields)
  pub find : State → String → Query → Result (List Fields)
  pub insert_one : State → String → Fields → Result Value × State
  pub update_one : State → String → Query → Update → Bool → Result ℕ × State
  pub find_one_and_update : State → String → Query → Update → Bool → Result (Option Fields) × State
  pub delete_one : State → String → Query → Result ℕ × State

-- What the manual says an update does to a document.
unfoldable pub put_all : Fields → Fields → Fields
put_all end d = d
put_all (field k v more) d = put_all more (put k v d)

pop_all : List String → Fields → Fields
pop_all [] d = d
pop_all (k ∷ ks) d = pop_all ks (pop k d)

inc_all : List (String × ℕ) → Fields → Fields
inc_all [] d = d
inc_all ((k, n) ∷ more) d = inc_all more (put k (int (as_number (get k d) + n)) d)

abbrev pub keep_last {ℓ} : {A : Type ℓ} → ℕ → List A → List A
keep_last n xs = drop (length xs - n) xs

push_all : List (String × Value × ℕ) → Fields → Fields
push_all [] d = d
push_all ((k, v, n) ∷ more) d =
    push_all more (put k (arr (of_list (keep_last n (as_list (get k d) ++ v ∷ [])))) d)

unfoldable pub apply_update : Update → Fields → Fields
unfolding put_all pop_all inc_all push_all
apply_update u d = push_all u.push (inc_all u.inc (pop_all u.unset (put_all u.set d)))

-- the document that an upsert starts from
unfoldable pub insert_base : Query → Fields → Fields
insert_base everything d = d
insert_base (where_eq k v) d = put k v d
insert_base (either p q) d = d
insert_base (both p q) d = insert_base p (insert_base q d)

unfoldable pub upserted : Query → Update → Fields
unfolding insert_base apply_update put_all
upserted q u = apply_update u (insert_base q (put_all u.set_on_insert end))

module _ (p : Fields → Bool) where
  unfoldable pub find_first : List Fields → Option Fields
  find_first [] = none
  find_first (d ∷ ds) = if p d then some d else find_first ds

  unfoldable pub find_all : List Fields → List Fields
  find_all [] = []
  find_all (d ∷ ds) = let rest = find_all ds in if p d then d ∷ rest else rest

  unfoldable pub update_first : Update → List Fields → List Fields
  update_first u [] = []
  update_first u (d ∷ ds) = if p d then apply_update u d ∷ ds else d ∷ update_first u ds

  unfoldable pub delete_first : List Fields → List Fields
  delete_first [] = []
  delete_first (d ∷ ds) = if p d then ds else d ∷ delete_first ds

  unfoldable pub update_docs : Query → Update → Bool → List Fields → List Fields
  unfolding find_first update_first upserted
  update_docs q u upsert ds =
      if is_some (find_first ds) || not upsert then update_first u ds else ds ++ upserted q u ∷ []

  -- the document after the update, which `ReturnDocument.AFTER` asks for
  unfoldable pub returned : Query → Update → Bool → List Fields → Option Fields
  unfolding find_first upserted
  returned q u upsert ds = elim (find_first ds) [
    | some d ↦ some (apply_update u d)
    | none ↦ if upsert then some (upserted q u) else none
  ]

-- The driver does what its manual says, when it does not raise. A query by a text finds the
-- documents with that text in the field.
pub record IsDocumented (m : Mongo) : Type 0 where
  pub docs : m.State → String → List Fields
  pub matches : Query → Fields → Bool
  pub matches-everything : (d : Fields) → matches everything d ≡ true
  pub matches-where_eq :
      (k s : String) (d : Fields) → matches (where_eq k (str s)) d ≡ is_text s (get k d)
  pub matches-either :
      (p q : Query) (d : Fields) → matches (either p q) d ≡ (matches p d || matches q d)
  pub matches-both :
      (p q : Query) (d : Fields) → matches (both p q) d ≡ (matches p d && matches q d)
  pub find_one_lem :
      (s : m.State) (c : String) (q : Query) (r : Option Fields)
      → m.find_one s c q ≡ ok r
      → r ≡ find_first (matches q) (docs s c)
  pub find_lem :
      (s : m.State) (c : String) (q : Query) (ds : List Fields)
      → m.find s c q ≡ ok ds
      → ds ≡ find_all (matches q) (docs s c)
  pub insert_one_lem :
      (s t : m.State) (c : String) (d : Fields) (id : Value)
      → m.insert_one s c d ≡ (ok id, t)
      → docs t c ≡ docs s c ++ put "_id" id d ∷ []
  pub update_one_lem :
      (s t : m.State) (c : String) (q : Query) (u : Update) (upsert : Bool) (n : ℕ)
      → m.update_one s c q u upsert ≡ (ok n, t)
      → docs t c ≡ update_docs (matches q) q u upsert (docs s c)
  pub find_one_and_update_lem :
      (s t : m.State) (c : String) (q : Query) (u : Update) (upsert : Bool) (r : Option Fields)
      → m.find_one_and_update s c q u upsert ≡ (ok r, t)
      → (docs t c ≡ update_docs (matches q) q u upsert (docs s c))
        × (r ≡ returned (matches q) q u upsert (docs s c))
  pub delete_one_lem :
      (s t : m.State) (c : String) (q : Query) (n : ℕ)
      → m.delete_one s c q ≡ (ok n, t)
      → (docs t c ≡ delete_first (matches q) (docs s c))
        × (n ≡ (if is_some (find_first (matches q) (docs s c)) then 1 else 0))

-- A write to one collection leaves the others, also when it raises.
pub record IsSeparate (m : Mongo) (good : IsDocumented m) : Type 0 where
  pub insert_one_other :
      (s : m.State) (c other : String) (d : Fields)
      → (c == other) ≡ false
      → good.docs (m.insert_one s c d).1 other ≡ good.docs s other
  pub update_one_other :
      (s : m.State) (c other : String) (q : Query) (u : Update) (upsert : Bool)
      → (c == other) ≡ false
      → good.docs (m.update_one s c q u upsert).1 other ≡ good.docs s other
