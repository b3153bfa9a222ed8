-- ===== src/Mongo/Keyed.antt =====
-- Collections whose documents have different texts under a key, as one with a unique index.
use open_yzj.Prelude.{
  Bool, Bool-cases, List, Option, String, [], ap, arith, eq_iff, eq_refl, eq_sym, false, fun_ext,
  if◌then◌else◌, inl, inr, ne_of_eq-false, none, none-ne-some, ok, refl, some, subst, sym, true,
  true-ne-false, ◌++◌, ◌==◌, ◌∙◌, ◌∷◌, ◌≡◌,
}
use open_yzj.Value.{Fields, Value, get, is_text, str}
use open_yzj.Mongo.{
  IsDocumented, Mongo, Update, apply_update, delete_first, find_first, update_first, where_eq,
}
use open_yzj.Mongo.Updates.{
  find_first-append, find_first-update_first, find_first-update_first_other, find_first_sound,
  is_text_apart, matches_text,
}

-- the document that a query `{k: s}` finds
abbrev pub holds : String → String → Fields → Bool
holds k s d = is_text s (get k d)

abbrev pub by_key : String → List Fields → String → Option Fields
by_key k ds s = find_first (holds k s) ds

abbrev pub IsKeyed : String → List Fields → Type 0
IsKeyed k [] = Unit {0}
IsKeyed k (d ∷ ds) = ((s : String) → holds k s d ≡ true → by_key k ds s ≡ none) × IsKeyed k ds

-- a map, changed at one key
abbrev pub override : (String → Option Fields) → String → Option Fields → String → Option Fields
override f t r s = if t == s then r else f s

same_text : (s t : String) (v : Value) → is_text s v ≡ true → is_text t v ≡ true → s ≡ t
same_text s t (str u) a b = (eq_iff s u).0 a ∙ sym ((eq_iff t u).0 b)
same_text s t _ a b = cc

pub override_same : (f : String → Option Fields) (t : String) → f t ≡ none → override f t none ≡ f
override_same f t h = fun_ext (λ s. elim (Bool-cases (t == s)) [
  | inl e ↦ rw e (subst (λ x. none ≡ f x) ((eq_iff t s).0 e) (sym h))
  | inr e ↦ rw e
])

module _ (p : Fields → Bool) where
  pub append-found :
      (ds : List Fields) (d x : Fields)
      → find_first p ds ≡ some x
      → find_first p (ds ++ d ∷ []) ≡ some x
  unfolding find_first
  append-found [] d x h = cc
  append-found (e ∷ ds) d x h = ground (arith, append-found ds d x)

  pub append-last :
      (ds : List Fields) (d : Fields)
      → find_first p ds ≡ none
      → find_first p (ds ++ d ∷ []) ≡ (if p d then some d else none)
  unfolding find_first
  append-last ds d h = find_first-append p ds (d ∷ []) h

  pub append-other :
      (ds : List Fields) (d : Fields) → p d ≡ false → find_first p (ds ++ d ∷ []) ≡ find_first p ds
  unfolding find_first
  append-other [] d h = rw h
  append-other (e ∷ ds) d h = ground (arith, append-other ds d h)

  -- an update that does not touch what is asked for
  pub update-none :
      (q : Fields → Bool) (u : Update) (ds : List Fields)
      → ((d : Fields) → p (apply_update u d) ≡ p d)
      → find_first p ds ≡ none
      → find_first p (update_first q u ds) ≡ none
  unfolding find_first update_first
  update-none q u [] same h = refl
  update-none q u (d ∷ ds) same h = ground (arith, same d, update-none q u ds same)

  pub update_first_missed :
      (u : Update) (ds : List Fields) → find_first p ds ≡ none → update_first p u ds ≡ ds
  unfolding find_first update_first
  update_first_missed u [] h = refl
  update_first_missed u (d ∷ ds) h = ground (arith, update_first_missed u ds)

  pub delete-none :
      (q : Fields → Bool) (ds : List Fields)
      → find_first p ds ≡ none
      → find_first p (delete_first q ds) ≡ none
  unfolding find_first delete_first
  delete-none q [] h = refl
  delete-none q (d ∷ ds) h = ground (arith, delete-none q ds)

  pub no_first :
      (d : Fields) (ds : List Fields)
      → find_first p (d ∷ ds) ≡ none
      → (p d ≡ false) × (find_first p ds ≡ none)
  unfolding find_first
  no_first d ds h = ground arith

module _ (k : String) where
  pub append-IsKeyed :
      (ds : List Fields) (d : Fields)
      → IsKeyed k ds
      → ((s : String) → holds k s d ≡ true → by_key k ds s ≡ none)
      → IsKeyed k (ds ++ d ∷ [])
  unfolding find_first
  append-IsKeyed [] d h fresh = (λ s e. refl, tt)
  append-IsKeyed (e ∷ ds) d h fresh = (
    λ s here. elim (Bool-cases (holds k s d)) [
      | inl clash ↦ absurd (true-ne-false here (no_first (holds k s) e ds (fresh s clash)).0)
      | inr apart ↦ append-other (holds k s) ds d apart ∙ h.0 s here
    ],
    append-IsKeyed ds d h.1 (λ s here. (no_first (holds k s) e ds (fresh s here)).1),
  )

  pub fresh_name :
      (ds : List Fields) (d : Fields) (t : String)
      → get k d ≡ str t
      → by_key k ds t ≡ none
      → (s : String) → holds k s d ≡ true
      → by_key k ds s ≡ none
  fresh_name ds d t named free s here =
      let same : s ≡ t = (eq_iff s t).0 (sym (rw named refl) ∙ here) in
      subst (λ x. by_key k ds x ≡ none) (sym same) free

  pub update-IsKeyed :
      (q : Fields → Bool) (u : Update) (ds : List Fields)
      → ((d : Fields) → get k (apply_update u d) ≡ get k d)
      → IsKeyed k ds
      → IsKeyed k (update_first q u ds)
  unfolding update_first
  update-IsKeyed q u [] same h = tt
  update-IsKeyed q u (d ∷ ds) same h =
      let kept = λ (s : String) (e : Fields). ap (is_text s) (same e) in
      elim (Bool-cases (q d)) [
        | inl hit ↦ rw hit (λ s here. h.0 s (sym (kept s d) ∙ here), h.1)
        | inr miss ↦ rw miss (
          λ s here. update-none (holds k s) q u ds (kept s) (h.0 s here),
          update-IsKeyed q u ds same h.1,
        )
      ]

  pub delete-IsKeyed :
      (q : Fields → Bool) (ds : List Fields) → IsKeyed k ds → IsKeyed k (delete_first q ds)
  unfolding delete_first
  delete-IsKeyed q [] h = tt
  delete-IsKeyed q (d ∷ ds) h = elim (Bool-cases (q d)) [
    | inl hit ↦ rw hit h.1
    | inr miss ↦ rw miss (λ s e. delete-none (holds k s) q ds (h.0 s e), delete-IsKeyed q ds h.1)
  ]

  -- the map after each change
  pub by_key-append :
      (ds : List Fields) (d : Fields) (t : String)
      → get k d ≡ str t
      → by_key k ds t ≡ none
      → by_key k (ds ++ d ∷ []) ≡ override (by_key k ds) t (some d)
  by_key-append ds d t named fresh = fun_ext (λ s. elim (Bool-cases (t == s)) [
    | inl e ↦ rw e (
        subst (λ x. by_key k (ds ++ d ∷ []) x ≡ some d) ((eq_iff t s).0 e)
          (append-last (holds k t) ds d fresh ∙ rw (named, eq_refl t) refl))
    | inr e ↦ rw e (append-other (holds k s) ds d (rw named (rw (eq_sym s t) e)))
  ])

  pub by_key-update :
      (ds : List Fields) (t : String) (u : Update) (d : Fields)
      → ((e : Fields) → get k (apply_update u e) ≡ get k e)
      → by_key k ds t ≡ some d
      → by_key k (update_first (holds k t) u ds)
        ≡ override (by_key k ds) t (some (apply_update u d))
  by_key-update ds t u d same found =
      let kept = λ (s : String) (e : Fields). ap (is_text s) (same e) in
      fun_ext (λ s. elim (Bool-cases (t == s)) [
        | inl e ↦ rw e (
            subst (λ x. by_key k (update_first (holds k t) u ds) x ≡ some (apply_update u d))
              ((eq_iff t s).0 e)
              (find_first-update_first (holds k t) u ds d found
                (kept t d ∙ find_first_sound (holds k t) ds d found)))
        | inr e ↦ rw e (
            find_first-update_first_other (holds k t) u (holds k s) ds (kept s)
              (λ x. is_text_apart t s (get k x) (ne_of_eq-false t s e)))
      ])

  by_key-delete_at :
      (ds : List Fields) (t : String)
      → IsKeyed k ds
      → (s : String) → by_key k (delete_first (holds k t) ds) s ≡ override (by_key k ds) t none s
  unfolding find_first delete_first
  by_key-delete_at [] t h s = ground arith
  by_key-delete_at (e ∷ ds) t h s =
      ground (arith, eq_iff t s, same_text s t (get k e), h.0 s, h.0 t, by_key-delete_at ds t h.1 s)

  pub by_key-delete :
      (ds : List Fields) (t : String)
      → IsKeyed k ds
      → by_key k (delete_first (holds k t) ds) ≡ override (by_key k ds) t none
  by_key-delete ds t h = fun_ext (by_key-delete_at ds t h)

-- every document has a text under the key
abbrev pub IsNamed : String → List Fields → Type 0
IsNamed k [] = Unit {0}
IsNamed k (d ∷ ds) = ((s : String) × (get k d ≡ str s)) × IsNamed k ds

module _ (k : String) where
  pub append-IsNamed :
      (ds : List Fields) (d : Fields) (s : String)
      → IsNamed k ds
      → get k d ≡ str s
      → IsNamed k (ds ++ d ∷ [])
  append-IsNamed [] d s h e = ((s, e), tt)
  append-IsNamed (c ∷ ds) d s h e = (h.0, append-IsNamed ds d s h.1 e)

  pub update-IsNamed :
      (q : Fields → Bool) (u : Update) (ds : List Fields)
      → ((d : Fields) → get k (apply_update u d) ≡ get k d)
      → IsNamed k ds
      → IsNamed k (update_first q u ds)
  unfolding update_first
  update-IsNamed q u [] same h = tt
  update-IsNamed q u (d ∷ ds) same h = elim (Bool-cases (q d)) [
    | inl hit ↦ rw hit ((h.0.0, same d ∙ h.0.1), h.1)
    | inr miss ↦ rw miss (h.0, update-IsNamed q u ds same h.1)
  ]

  pub delete-IsNamed :
      (q : Fields → Bool) (ds : List Fields) → IsNamed k ds → IsNamed k (delete_first q ds)
  unfolding delete_first
  delete-IsNamed q [] h = tt
  delete-IsNamed q (d ∷ ds) h = elim (Bool-cases (q d)) [
    | inl hit ↦ rw hit h.1
    | inr miss ↦ rw miss (h.0, delete-IsNamed q ds h.1)
  ]

  -- a document that some query finds has a name, and is found by it
  pub found_by_name :
      (p : Fields → Bool) (ds : List Fields) (d : Fields)
      → IsKeyed k ds
      → IsNamed k ds
      → find_first p ds ≡ some d
      → (s : String) × (by_key k ds s ≡ some d)
  unfolding find_first
  found_by_name p [] d keyed named h = cc
  found_by_name p (c ∷ ds) d keyed named h = elim (Bool-cases (p c)) [
    | inl hit ↦ let (s, e) = named.0 in (s, rw (e, eq_refl s) (rw hit at h))
    | inr miss ↦
        let (s, e) = found_by_name p ds d keyed.1 named.1 (rw miss at h) in
        elim (Bool-cases (holds k s c)) [
          | inl clash ↦ absurd (none-ne-some (sym (keyed.0 s clash) ∙ e))
          | inr apart ↦ (s, rw apart e)
        ]
  ]

-- what one query does not find, no other finds
pub unfound :
    (p q : Fields → Bool) (ds : List Fields) (d : Fields)
    → find_first p ds ≡ none
    → find_first q ds ≡ some d
    → p d ≡ false
unfolding find_first
unfound p q [] d h k = cc
unfound p q (c ∷ ds) d h k = ground (arith, unfound p q ds d)

-- what a look-up by a text finds
pub looked_up :
    (m : Mongo) (good : IsDocumented m) (s : m.State) (c k t : String) (r : Option Fields)
    → m.find_one s c (where_eq k (str t)) ≡ ok r
    → by_key k (good.docs s c) t ≡ r
looked_up m good s c k t r h =
    ap (λ p. find_first p (good.docs s c)) (sym (matches_text m good k t))
    ∙ sym (good.find_one_lem s c _ r h)
