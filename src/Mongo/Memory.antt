-- ===== src/Mongo/Memory.antt =====
-- A database in memory, which behaves as the manual says.
use open_yzj.Prelude.{
  Bool, List, Result, String, [], ap, eq_refl, false, if◌then◌else◌, is_some, ok, ok-injective,
  refl, sym, true, ◌&&◌, ◌++◌, ◌==◌, ◌||◌, ◌∙◌, ◌∷◌, ◌≡◌,
}
use open_yzj.Value.{Fields, get, is_text, put, str}
use open_yzj.Indexes.{IsReachable}
use open_yzj.Mongo.{
  IsDocumented, IsSeparate, Mongo, Query, both, delete_first, either, everything, find_all,
  find_first, returned, update_docs, where_eq,
}

abbrev pub Docs : Type 0
Docs = String → List Fields

abbrev pub matches_in : Query → Fields → Bool
matches_in everything d = true
matches_in (where_eq k (str s)) d = is_text s (get k d)
matches_in (where_eq k v) d = false
matches_in (either p q) d = matches_in p d || matches_in q d
matches_in (both p q) d = matches_in p d && matches_in q d

abbrev pub write : Docs → String → List Fields → Docs
write s c ds k = if c == k then ds else s k

abbrev pub memory : Mongo
memory = record {
  State = Docs;
  find_one = λ s c q. ok (find_first (matches_in q) (s c));
  find = λ s c q. ok (find_all (matches_in q) (s c));
  insert_one = λ s c d. (ok (get "_id" d), write s c (s c ++ put "_id" (get "_id" d) d ∷ []));
  update_one = λ s c q u upsert. (ok 1, write s c (update_docs (matches_in q) q u upsert (s c)));
  find_one_and_update = λ s c q u upsert. (
    ok (returned (matches_in q) q u upsert (s c)),
    write s c (update_docs (matches_in q) q u upsert (s c)),
  );
  delete_one = λ s c q. (
    ok (if is_some (find_first (matches_in q) (s c)) then 1 else 0),
    write s c (delete_first (matches_in q) (s c)),
  );
}

write_self : (s : Docs) (c : String) (ds : List Fields) → write s c ds c ≡ ds
write_self s c ds = rw (eq_refl c)

pub memory_written :
    {A : Type 0} (s t : Docs) (c : String) (ds : List Fields) (a b : A)
    → ◌≡◌ {A = Result A × Docs} (ok a, write s c ds) (ok b, t)
    → (t c ≡ ds) × (a ≡ b)
memory_written {A} s t c ds a b h = (
  ap (λ (x : Result A × Docs). x.1 c) (sym h) ∙ write_self s c ds,
  ok-injective (ap (λ (x : Result A × Docs). x.0) h),
)

abbrev pub memory-IsDocumented : IsDocumented memory
memory-IsDocumented = record {
  docs = λ s c. s c;
  matches = matches_in;
  matches-everything = λ d. refl;
  matches-where_eq = λ k s d. refl;
  matches-either = λ p q d. refl;
  matches-both = λ p q d. refl;
  find_one_lem = λ s c q r h. sym (ok-injective h);
  find_lem = λ s c q ds h. sym (ok-injective h);
  insert_one_lem = λ s t c d id h.
      let (same, made) =
        memory_written s t c (s c ++ put "_id" (get "_id" d) d ∷ []) (get "_id" d) id h in
      rw (← made) same;
  update_one_lem = λ s t c q u upsert n h.
      (memory_written s t c (update_docs (matches_in q) q u upsert (s c)) 1 n h).0;
  find_one_and_update_lem = λ s t c q u upsert r h.
      let (same, made) =
        memory_written s t c (update_docs (matches_in q) q u upsert (s c))
          (returned (matches_in q) q u upsert (s c)) r h in
      (same, sym made);
  delete_one_lem = λ s t c q n h.
      let (same, made) =
        memory_written s t c (delete_first (matches_in q) (s c))
          (if is_some (find_first (matches_in q) (s c)) then 1 else 0) n h in
      (same, sym made);
}

abbrev pub memory-IsReachable : IsReachable memory memory-IsDocumented
memory-IsReachable = record {
  finds_one = λ s c q. (_, refl);
  finds = λ s c q. (_, refl);
  inserts = λ s c d fresh free. (_, _, refl);
  updates = λ s c q u safe. (_, _, refl);
  finds_and_updates = λ s c q u safe. (_, _, refl);
  deletes = λ s c q. (_, _, refl);
}

abbrev pub memory-IsSeparate : IsSeparate memory memory-IsDocumented
memory-IsSeparate = record {
  insert_one_other = λ s c other d apart. rw apart refl;
  update_one_other = λ s c other q u upsert apart. rw apart refl;
}
