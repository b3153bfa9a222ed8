-- ===== src/Examples/Indexed.antt =====
-- A database in memory with one index of server/app/db/indexes.py.
use open_yzj.Prelude.{
  Bool, Bool-cases, Exc, List, Option, Result, String, [], eq_iff, eq_refl, external, false,
  if◌then◌else◌, inl, inr, none, ok, raise, refl, some, subst, sym, true, ℕ, ◌++◌, ◌==◌, ◌||◌, ◌∷◌,
  ◌≡◌,
}
use open_yzj.Prelude.Effect.{raise_pair}
use open_yzj.Value.{Fields, Value, put}
use open_yzj.Mongo.{
  IsDocumented, IsSeparate, Mongo, Query, Update, find_first, update_docs, upserted,
}
use open_yzj.Mongo.Memory.{Docs, matches_in, memory, memory-IsDocumented, memory-IsSeparate}
use open_yzj.Indexes.{Enforces, Index, IsReachable, clashes, clashes_in, server_indexes, unique_key}

module _ (coll : String) (i : Index) where
  abbrev clash : Docs → String → Fields → Option Fields
  clash s c d = if coll == c then find_first (λ x. clashes i x d) (s c) else none

  abbrev duplicate : Exc
  duplicate = external "DuplicateKeyError" "E11000"

  abbrev insert_checked : Option Fields → Docs → String → Fields → Result Value × Docs
  insert_checked none s c d = memory.insert_one s c d
  insert_checked (some other) s c d = (raise duplicate, s)

  abbrev update_checked :
      Option Fields → Option Fields → Docs → String → Query → Update → Bool → Result ℕ × Docs
  update_checked none (some other) s c q u true = (raise duplicate, s)
  update_checked _ _ s c q u upsert = memory.update_one s c q u upsert

  abbrev pub indexed : Mongo
  indexed = record memory {
    insert_one = λ s c d. insert_checked (clash s c d) s c d;
    update_one = λ s c q u upsert.
        update_checked (find_first (matches_in q) (s c)) (clash s c (upserted q u)) s c q u upsert;
  }

  pub inserted :
      (x : Option Fields) (s t : Docs) (c : String) (d : Fields) (id : Value)
      → insert_checked x s c d ≡ (ok id, t)
      → t c ≡ s c ++ put "_id" id d ∷ []
  inserted none s t c d id h = memory-IsDocumented.insert_one_lem s t c d id h
  inserted (some other) s t c d id h = absurd (raise_pair h)

  pub updated :
      (x y : Option Fields) (s t : Docs) (c : String) (q : Query) (u : Update) (upsert : Bool)
      (n : ℕ)
      → update_checked x y s c q u upsert ≡ (ok n, t)
      → t c ≡ update_docs (matches_in q) q u upsert (s c)
  updated none (some other) s t c q u true n h = absurd (raise_pair h)
  updated none (some other) s t c q u false n h =
      memory-IsDocumented.update_one_lem s t c q u false n h
  updated none none s t c q u upsert n h = memory-IsDocumented.update_one_lem s t c q u upsert n h
  updated (some x) y s t c q u upsert n h = memory-IsDocumented.update_one_lem s t c q u upsert n h

  abbrev pub indexed-IsDocumented : IsDocumented indexed
  indexed-IsDocumented = record {
    docs = λ s c. s c;
    matches = matches_in;
    matches-everything = λ d. refl;
    matches-where_eq = λ k s d. refl;
    matches-either = λ p q d. refl;
    matches-both = λ p q d. refl;
    find_one_lem = memory-IsDocumented.find_one_lem;
    find_lem = memory-IsDocumented.find_lem;
    insert_one_lem = λ s t c d id h. inserted (clash s c d) s t c d id h;
    update_one_lem = λ s t c q u upsert n h.
        updated (find_first (matches_in q) (s c)) (clash s c (upserted q u)) s t c q u upsert n h;
    find_one_and_update_lem = memory-IsDocumented.find_one_and_update_lem;
    delete_one_lem = memory-IsDocumented.delete_one_lem;
  }

  abbrev pub indexed-Enforces : Enforces indexed indexed-IsDocumented coll i
  indexed-Enforces = record {
    insert_refused = λ s d other h. (duplicate, s, rw (eq_refl coll) (rw h refl), refl);
    upsert_refused =
        λ s q u other missing h. (duplicate, s, rw missing (rw (eq_refl coll) (rw h refl)));
  }

  pub inserted_other :
      (x : Option Fields) (s : Docs) (c other : String) (d : Fields)
      → (c == other) ≡ false
      → (insert_checked x s c d).1 other ≡ s other
  inserted_other none s c other d apart = memory-IsSeparate.insert_one_other s c other d apart
  inserted_other (some seen) s c other d apart = refl

  pub updated_other :
      (x y : Option Fields) (s : Docs) (c other : String) (q : Query) (u : Update) (upsert : Bool)
      → (c == other) ≡ false
      → (update_checked x y s c q u upsert).1 other ≡ s other
  updated_other none (some y) s c other q u true apart = refl
  updated_other none (some y) s c other q u false apart =
      memory-IsSeparate.update_one_other s c other q u false apart
  updated_other none none s c other q u upsert apart =
      memory-IsSeparate.update_one_other s c other q u upsert apart
  updated_other (some x) y s c other q u upsert apart =
      memory-IsSeparate.update_one_other s c other q u upsert apart

  abbrev pub indexed-IsSeparate : IsSeparate indexed indexed-IsDocumented
  indexed-IsSeparate = record {
    insert_one_other = λ s c other d apart. inserted_other (clash s c d) s c other d apart;
    update_one_other = λ s c other q u upsert apart.
        updated_other (find_first (matches_in q) (s c)) (clash s c (upserted q u)) s c other q u
          upsert apart;
  }

  pub new_insert :
      (x : Option Fields) (s : Docs) (c : String) (d : Fields)
      → x ≡ none
      → (id : Value) × (t : Docs) × (insert_checked x s c d ≡ (ok id, t))
  new_insert none s c d h = (_, _, refl)
  new_insert (some other) s c d h = cc

  pub plain_update :
      (x y : Option Fields) (s : Docs) (c : String) (q : Query) (u : Update)
      → (n : ℕ) × (t : Docs) × (update_checked x y s c q u false ≡ (ok n, t))
  plain_update none none s c q u = (_, _, refl)
  plain_update none (some y) s c q u = (_, _, refl)
  plain_update (some x) y s c q u = (_, _, refl)

  -- where the index is one of those of the server
  module _
      (one_of : (c : String) (a b : Fields)
        → (coll == c) ≡ true
        → clashes_in server_indexes c a b ≡ false
        → clashes i a b ≡ false) where
    free_of :
        (c : String) (d : Fields) (ds : List Fields)
        → (coll == c) ≡ true
        → find_first (λ x. clashes_in server_indexes c x d) ds ≡ none
        → find_first (λ x. clashes i x d) ds ≡ none
    unfolding find_first
    free_of c d [] here free = refl
    free_of c d (x ∷ ds) here free = elim (Bool-cases (clashes_in server_indexes c x d)) [
      | inl e ↦ cc (rw e at free)
      | inr e ↦ rw (one_of c x d here e) (free_of c d ds here (rw e at free))
    ]

    pub clash_free :
        (s : Docs) (c : String) (d : Fields)
        → find_first (λ x. clashes_in server_indexes c x d) (s c) ≡ none
        → clash s c d ≡ none
    clash_free s c d free = elim (Bool-cases (coll == c)) [
      | inl here ↦ rw here (free_of c d (s c) here free)
      | inr apart ↦ rw apart refl
    ]

    abbrev pub indexed-IsReachable : IsReachable indexed indexed-IsDocumented
    indexed-IsReachable = record {
      finds_one = λ s c q. (_, refl);
      finds = λ s c q. (_, refl);
      inserts = λ s c d fresh free. new_insert (clash s c d) s c d (clash_free s c d free);
      updates = λ s c q u safe.
          plain_update (find_first (matches_in q) (s c)) (clash s c (upserted q u)) s c q u;
      finds_and_updates = λ s c q u safe. (_, _, refl);
      deletes = λ s c q. (_, _, refl);
    }

pub msg_id_one_of :
    (c : String) (a b : Fields)
    → ("messages" == c) ≡ true
    → clashes_in server_indexes c a b ≡ false
    → clashes (unique_key "msgId") a b ≡ false
msg_id_one_of c a b here free =
    or_parts _ (
      subst (λ k. clashes_in server_indexes k a b ≡ false) (sym ((eq_iff "messages" c).0 here))
        free)
  where
    or_parts : (x : Bool) → (x || false) ≡ false → x ≡ false
    or_parts true h = h
    or_parts false h = refl

-- the database with the unique index on `msgId`
abbrev pub messages_indexed : Mongo
messages_indexed = indexed "messages" (unique_key "msgId")

abbrev pub messages-IsReachable :
    IsReachable messages_indexed (indexed-IsDocumented "messages" (unique_key "msgId"))
messages-IsReachable = indexed-IsReachable "messages" (unique_key "msgId") msg_id_one_of
