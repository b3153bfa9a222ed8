-- ===== src/Mongo/Updates.antt =====
-- What a documented update of one document does to the reads of it and of the others.
use open_yzj.Prelude.{
  Bool, Bool-cases, List, Option, Option-cases, String, [], arith, eq_iff, false, fun_ext, inl, inr,
  length, length-drop, none, refl, some, some-injective, true, true-ne-false, ℕ, ◌++◌, ◌-◌, ◌∙◌,
  ◌∷◌, ◌≡◌, ◌≢◌, ◌≤◌,
}
use open_yzj.Value.{
  Fields, Value, contains, end, field, get, get-put, given_field, is_text, put, str,
}
use open_yzj.Mongo.{
  IsDocumented, Mongo, Query, Update, apply_update, find_first, keep_last, no_update, put_all,
  returned, update_docs, update_first, upserted, where_eq,
}

module _ (p : Fields → Bool) (u : Update) where
  pub find_first-update_first :
      (ds : List Fields) (d : Fields)
      → find_first p ds ≡ some d
      → p (apply_update u d) ≡ true
      → find_first p (update_first p u ds) ≡ some (apply_update u d)
  unfolding find_first update_first
  find_first-update_first [] d h k = cc
  find_first-update_first (e ∷ ds) d h k = elim (Bool-cases (p e)) [
    | inl hit ↦ let same : e ≡ d = some-injective (rw hit at h) in rw hit (rw same (rw k))
    | inr miss ↦ rw miss (rw miss (find_first-update_first ds d (rw miss at h) k))
  ]

  pub find_first-update_first_other :
      (q : Fields → Bool) (ds : List Fields)
      → ((d : Fields) → q (apply_update u d) ≡ q d)
      → ((d : Fields) → p d ≡ true → q d ≡ false)
      → find_first q (update_first p u ds) ≡ find_first q ds
  unfolding find_first update_first
  find_first-update_first_other q [] same apart = refl
  find_first-update_first_other q (e ∷ ds) same apart = elim (Bool-cases (p e)) [
    | inl hit ↦ rw hit (rw (same e, apart e hit))
    | inr miss ↦ rw miss (rw (find_first-update_first_other q ds same apart))
  ]

  pub update_docs_found :
      (q : Query) (upsert : Bool) (ds : List Fields) (d : Fields)
      → find_first p ds ≡ some d
      → update_docs p q u upsert ds ≡ update_first p u ds
  unfolding update_docs
  update_docs_found q upsert ds d h = rw h

  pub update_docs_plain :
      (q : Query) (ds : List Fields) → update_docs p q u false ds ≡ update_first p u ds
  unfolding update_docs
  update_docs_plain q ds = elim (Option-cases (find_first p ds)) [
    | inl e ↦ rw e
    | inr (d, e) ↦ rw e
  ]

  pub update_docs_missing :
      (q : Query) (ds : List Fields)
      → find_first p ds ≡ none
      → update_docs p q u true ds ≡ ds ++ upserted q u ∷ []
  unfolding update_docs
  update_docs_missing q ds h = rw h

pub find_first-append :
    (p : Fields → Bool) (ds es : List Fields)
    → find_first p ds ≡ none
    → find_first p (ds ++ es) ≡ find_first p es
unfolding find_first
find_first-append p [] es h = refl
find_first-append p (d ∷ ds) es h = ground (arith, find_first-append p ds es)

pub length-keep_last {ℓ} : {A : Type ℓ} (n : ℕ) (xs : List A) → length (keep_last n xs) ≤ n
length-keep_last n xs = omega (arith, length-drop (length xs - n) xs)

-- A query by a text is a test of one field.
pub matches_text :
    (m : Mongo) (good : IsDocumented m) (k s : String)
    → good.matches (where_eq k (str s)) ≡ (λ d. is_text s (get k d))
matches_text m good k s = fun_ext (λ d. good.matches-where_eq k s d)

pub is_text_apart : (a b : String) (v : Value) → a ≢ b → is_text a v ≡ true → is_text b v ≡ false
is_text_apart a b (str t) apart h = ground (arith, eq_iff a t, eq_iff b t)
is_text_apart a b _ apart h = cc

pub find_first_sound :
    (p : Fields → Bool) (ds : List Fields) (d : Fields) → find_first p ds ≡ some d → p d ≡ true
unfolding find_first
find_first_sound p [] d h = cc
find_first_sound p (e ∷ ds) d h = ground (arith, find_first_sound p ds d)

found_here : (p : Fields → Bool) (d : Fields) → p d ≡ true → find_first p (d ∷ []) ≡ some d
unfolding find_first
found_here p d h = rw h

-- After an upsert the query finds the document that the upsert left.
pub find_first-upsert :
    (p : Fields → Bool) (u : Update) (q : Query) (ds : List Fields)
    → ((d : Fields) → p d ≡ true → p (apply_update u d) ≡ true)
    → p (upserted q u) ≡ true
    → find_first p (update_docs p q u true ds) ≡ returned p q u true ds
unfolding returned
find_first-upsert p u q ds keeps fresh = elim (Option-cases (find_first p ds)) [
  | inl e ↦ rw (update_docs_missing p u q ds e) (
      rw (e, returned)
        (find_first-append p ds (upserted q u ∷ []) e ∙ found_here p (upserted q u) fresh))
  | inr (d, e) ↦
      rw (update_docs_found p u q true ds d e) (
        rw (e, returned) (find_first-update_first p u ds d e (keeps d (find_first_sound p ds d e))))
]

pub get-put_all :
    (set : Fields) (j : String) (d : Fields)
    → contains j set ≡ false
    → get j (put_all set d) ≡ get j d
unfolding put_all contains
get-put_all end j d h = refl
get-put_all (field k v more) j d h = ground (arith, get-put k j v d, get-put_all more j (put k v d))

-- `$set` leaves the fields that it does not name.
pub get-set_update :
    (set : Fields) (j : String) (d : Fields)
    → contains j set ≡ false
    → get j (apply_update (record no_update { set = set }) d) ≡ get j d
unfolding apply_update
get-set_update set j d h = get-put_all set j d h

-- two queries that find the same document, one of which the update does not touch
pub find_first-update_first_same :
    (p q : Fields → Bool) (u : Update) (ds : List Fields) (d : Fields)
    → find_first p ds ≡ some d
    → find_first q ds ≡ some d
    → q (apply_update u d) ≡ q d
    → find_first q (update_first p u ds) ≡ some (apply_update u d)
unfolding find_first update_first
find_first-update_first_same p q u [] d h k same = cc
find_first-update_first_same p q u (e ∷ ds) d h k same = elim (Bool-cases (p e)) [
  | inl hit ↦
      let at : e ≡ d = some-injective (rw hit at h) in
      rw hit (rw at (rw (same ∙ find_first_sound q (e ∷ ds) d k) refl))
  | inr miss ↦ elim (Bool-cases (q e)) [
    | inl hit ↦
        let at : e ≡ d = some-injective (rw hit at k) in
        absurd (true-ne-false (find_first_sound p (e ∷ ds) d h) (rw at at miss))
    | inr lost ↦
        rw miss
          (rw lost (find_first-update_first_same p q u ds d (rw miss at h) (rw lost at k) same))
  ]
]

-- a field that a `$set` has only when it is given, and that another field does not depend on
pub put_all-given_field {ℓ} :
    {A : Type ℓ} (k j : String) (as_value : A → Value) (v : Option A) (more : Fields) (w : Value)
    → ((d : Fields) → get j (put_all more d) ≡ w)
    → (d : Fields) → get j (put_all (given_field k as_value v more) d) ≡ w
unfolding put_all
put_all-given_field k j as_value none more w h d = h d
put_all-given_field k j as_value (some x) more w h d = h (put k (as_value x) d)

-- where one query finds something that the other finds too, so does the other
pub found_too :
    (p q : Fields → Bool) (ds : List Fields) (d : Fields)
    → find_first p ds ≡ some d
    → q d ≡ true
    → (x : Fields) × (find_first q ds ≡ some x)
unfolding find_first
found_too p q [] d h k = cc
found_too p q (e ∷ ds) d h k = elim (Bool-cases (q e)) [
  | inl hit ↦ (e, rw hit)
  | inr miss ↦ elim (Bool-cases (p e)) [
    | inl here ↦
        let same : e ≡ d = some-injective (rw here at h) in
        absurd (true-ne-false k (rw same at miss))
    | inr gone ↦ let (x, found) = found_too p q ds d (rw gone at h) k in (x, rw miss found)
  ]
]

pub found_last :
    (p : Fields → Bool) (ds : List Fields) (d : Fields)
    → p d ≡ true
    → (x : Fields) × (find_first p (ds ++ d ∷ []) ≡ some x)
unfolding find_first
found_last p [] d h = (d, rw h)
found_last p (e ∷ ds) d h = elim (Bool-cases (p e)) [
  | inl hit ↦ (e, rw hit)
  | inr miss ↦ let (x, found) = found_last p ds d h in (x, rw miss found)
]
