-- ===== src/Proxy/Endpoints/Bills/Details.antt =====
-- What `_translate_bills` makes of the fields and the details of a bill.
use open_yzj.Proxy.Endpoints.Bills.Idempotence.{contains-pop}
use open_yzj.Prelude.{
  >>=-eq-ok, Bool, Bool-cases, List, String, [], any, arith, eq_iff, eq_refl, false, has_text,
  if◌then◌else◌, inl, inr, not, ok, ok-injective, raise-ne-ok, refl, subst, sym, true, ◌&&◌, ◌==◌,
  ◌∷◌, ◌≡◌, ◌⊎◌,
}
use open_yzj.Value.{
  Fields, Items, Value, arr, bool, cons, contains, contains-put, end, field, get, get-put, int,
  is_text, nil, null, num, obj, pop, str, to_list,
}
use open_yzj.Proxy.Endpoints.Bills.{rename, translate_bill, translate_detail, translate_details}

-- A field that moves: an old name that stands, and a new name that does not.
abbrev pub moves : String → String → Fields → Bool
moves old new d = contains old d && not (contains new d)

-- whether a name is one of those that a translation touches
abbrev pub is_one_of : List String → String → Bool
is_one_of names k = any (λ n. n == k) names

-- The field with an old name has the new one, where that was free, and the rest stays.
pub record IsMoved (old new : String) (before after : Fields) : Type 0 where
  pub value : get new after ≡ (if moves old new before then get old before else get new before)
  pub left :
      contains old after
      ≡ (if moves old new before then contains old (pop old before) else contains old before)
  pub others :
      (k : String)
      → (is_one_of (old ∷ new ∷ []) k ≡ true)
        ⊎ ((get k after ≡ get k before) × (contains k after ≡ contains k before))

-- A detail that is a dict has its `billSourceId` as `detailId`; another stays.
abbrev pub IsDetail : Value → Value → Type 0
IsDetail (obj d) w = (e : Fields) × (w ≡ obj e) × IsMoved "billSourceId" "detailId" d e
IsDetail v w = w ≡ v

abbrev pub AreDetails : Items → Items → Type 0
AreDetails nil nil = Unit {0}
AreDetails (cons v vs) (cons w ws) = IsDetail v w × AreDetails vs ws
AreDetails _ _ = ⊥

-- The details of a bill are a list, or stay.
abbrev pub IsDetailList : Value → Value → Type 0
IsDetailList (arr vs) w = (ws : Items) × (w ≡ arr ws) × AreDetails vs ws
IsDetailList v w = w ≡ v

-- A flag that is wanted stands: the caller's value, or else "1".
abbrev pub flag : Bool → String → Fields → Value
flag wanted k bill = if wanted && not (contains k bill) then str "1" else get k bill

abbrev pub touched : List String
touched = "autoInvoice" ∷ "autoMerge" ∷ "items" ∷ "billDetail" ∷ []

pub record IsTranslated (auto_invoice auto_merge : Bool) (bill b : Fields) : Type 0 where
  pub invoice : get "autoInvoice" b ≡ flag auto_invoice "autoInvoice" bill
  pub merge : get "autoMerge" b ≡ flag auto_merge "autoMerge" bill
  pub details :
      IsDetailList
        (if moves "items" "billDetail" bill then get "items" bill else get "billDetail" bill)
        (get "billDetail" b)
  pub left : contains "items" b ≡ (
      if moves "items" "billDetail" bill
      then contains "items" (pop "items" bill)
      else contains "items" bill)
  pub others : (k : String) → (is_one_of touched k ≡ true) ⊎ (get k b ≡ get k bill)
  pub again : translate_bill auto_invoice auto_merge b ≡ ok b

get-pop : (k j : String) (d : Fields) → (k == j) ≡ false → get j (pop k d) ≡ get j d
unfolding get pop
get-pop k j end h = refl
get-pop k j (field i w d) h = ground (arith, eq_iff k j, eq_iff i k, eq_iff i j, get-pop k j d)

module _ (old new : String) (apart : (new == old) ≡ false) where
  pub renamed-IsMoved :
      (d : Fields) → IsMoved old new d (if moves old new d then rename old new d else d)
  renamed-IsMoved d = elim (Bool-cases (moves old new d)) [
    | inl e ↦ record {
      value = rw e (rw (get-put new new (get old d) (pop old d), eq_refl new) refl);
      left = rw e (rw (contains-put new old (get old d) (pop old d), apart) refl);
      others = λ k. rw e (other k);
    }
    | inr e ↦ record { value = rw e refl; left = rw e refl; others = λ k. rw e (inr (refl, refl)) }
  ]
    where
      other :
          (k : String)
          → (is_one_of (old ∷ new ∷ []) k ≡ true)
            ⊎ ((get k (rename old new d) ≡ get k d)
                × (contains k (rename old new d) ≡ contains k d))
      other k = elim (Bool-cases (old == k)) [
        | inl e ↦ inl (rw e refl)
        | inr e ↦ elim (Bool-cases (new == k)) [
          | inl f ↦ inl (rw (e, f) refl)
          | inr f ↦ inr (
            rw (get-put new k (get old d) (pop old d), f) (get-pop old k d e),
            rw (contains-put new k (get old d) (pop old d), f) (contains-pop old k d e),
          )
        ]
      ]

translate_detail-IsDetail : (v w : Value) → translate_detail v ≡ ok w → IsDetail v w
unfolding translate_detail
translate_detail-IsDetail (obj d) w h =
    (_, sym (ok-injective h), renamed-IsMoved "billSourceId" "detailId" refl d)
translate_detail-IsDetail (str s) w h =
    elim (Bool-cases (has_text "billSourceId" s && not (has_text "detailId" s))) [
      | inl e ↦ absurd (raise-ne-ok (rw e at h))
      | inr e ↦ sym (ok-injective (rw e at h))
    ]
translate_detail-IsDetail (arr vs) w h =
    elim (Bool-cases
      (any (is_text "billSourceId") (to_list vs) && not (any (is_text "detailId") (to_list vs)))) [
        | inl e ↦ absurd (raise-ne-ok (rw e at h))
        | inr e ↦ sym (ok-injective (rw e at h))
      ]
translate_detail-IsDetail null w h = absurd (raise-ne-ok h)
translate_detail-IsDetail (bool b) w h = absurd (raise-ne-ok h)
translate_detail-IsDetail (int n) w h = absurd (raise-ne-ok h)
translate_detail-IsDetail (num n) w h = absurd (raise-ne-ok h)

pub translate_details-AreDetails : (vs ws : Items) → translate_details vs ≡ ok ws → AreDetails vs ws
unfolding translate_details
translate_details-AreDetails nil ws h = subst (AreDetails nil) (ok-injective h) tt
translate_details-AreDetails (cons v vs) ws h =
    let (x, one, h1) = >>=-eq-ok (translate_detail v) _ h in
    let (xs, more, h2) = >>=-eq-ok (translate_details vs) _ h1 in
    subst (AreDetails (cons v vs)) (ok-injective h2)
      (translate_detail-IsDetail v x one, translate_details-AreDetails vs xs more)
