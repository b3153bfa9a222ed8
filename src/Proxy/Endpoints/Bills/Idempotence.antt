-- ===== src/Proxy/Endpoints/Bills/Idempotence.antt =====
-- A bill that was translated is left as it is by another translation.
use open_yzj.Prelude.{
  >>=-eq-ok, Bool, Bool-cases, List, String, [], any, ap, arith, eq_iff, eq_refl, false, has_text,
  if◌then◌else◌, inl, inr, not, ok, ok-injective, raise-ne-ok, refl, subst, sym, true, ◌&&◌, ◌==◌,
  ◌∙◌, ◌∷◌, ◌≡◌,
}
use open_yzj.Value.{
  Fields, Items, Value, arr, cons, contains, contains-put, end, field, get, get-put_self, is_text,
  nil, obj, pop, put, str, to_list,
}
use open_yzj.Proxy.Endpoints.Bills.{
  inject, rename, rename_items, set_default, translate_bill, translate_bills, translate_detail,
  translate_details, translate_listed,
}

pub contains-pop :
    (k j : String) (d : Fields) → (k == j) ≡ false → contains j (pop k d) ≡ contains j d
unfolding contains pop
contains-pop k j end h = refl
contains-pop k j (field i w d) h =
    ground (arith, eq_iff k j, eq_iff i k, eq_iff i j, contains-pop k j d)

put-same : (k : String) (v : Value) (d : Fields) → get k d ≡ v → contains k d ≡ true → put k v d ≡ d
unfolding contains put get
put-same k v end g h = cc
put-same k v (field i w d) g h = elim (Bool-cases (i == k)) [
  | inl e ↦
      let same : i ≡ k = (eq_iff i k).0 e in
      let held : w ≡ v = rw e at g in
      rw e (ap (λ x. field k x d) (sym held) ∙ ap (λ x. field x w d) (sym same))
  | inr e ↦ rw e (ap (λ t. field i w t) (put-same k v d (rw e at g) (rw e at h)))
]

contains-rename_new : (old new : String) (d : Fields) → contains new (rename old new d) ≡ true
contains-rename_new old new d = simp (contains-put, eq_refl)

contains-rename :
    (old new j : String) (d : Fields)
    → (old == j) ≡ false
    → (new == j) ≡ false
    → contains j (rename old new d) ≡ contains j d
contains-rename old new j d a b =
    rw (contains-put new j (get old d) (pop old d), b) (contains-pop old j d a)

and_not : (a b : Bool) → b ≡ true → (a && not b) ≡ false
and_not a b h = ground arith

detail_settled :
    (d : Fields)
    → let e =
        if contains "billSourceId" d && not (contains "detailId" d)
        then rename "billSourceId" "detailId" d
        else d in
      (contains "billSourceId" e && not (contains "detailId" e)) ≡ false
detail_settled d = elim (Bool-cases (contains "billSourceId" d && not (contains "detailId" d))) [
  | inl e ↦ rw e (and_not _ _ (contains-rename_new "billSourceId" "detailId" d))
  | inr e ↦ rw e e
]

translate_detail_again : (v w : Value) → translate_detail v ≡ ok w → translate_detail w ≡ ok w
unfolding translate_detail
translate_detail_again (obj d) w h =
    subst (λ x. translate_detail x ≡ ok x) (ok-injective h) (rw (detail_settled d) refl)
translate_detail_again (str s) w h =
    elim (Bool-cases (has_text "billSourceId" s && not (has_text "detailId" s))) [
      | inl e ↦ absurd (raise-ne-ok (rw e at h))
      | inr e ↦ subst (λ x. translate_detail x ≡ ok x) (ok-injective (rw e at h)) (rw e refl)
    ]
translate_detail_again (arr vs) w h =
    elim (Bool-cases
      (any (is_text "billSourceId") (to_list vs) && not (any (is_text "detailId") (to_list vs)))) [
        | inl e ↦ absurd (raise-ne-ok (rw e at h))
        | inr e ↦ subst (λ x. translate_detail x ≡ ok x) (ok-injective (rw e at h)) (rw e refl)
      ]
translate_detail_again _ w h = absurd (raise-ne-ok h)

translate_details_again :
    (vs ws : Items) → translate_details vs ≡ ok ws → translate_details ws ≡ ok ws
unfolding translate_details
translate_details_again nil ws h = subst (λ x. translate_details x ≡ ok x) (ok-injective h) refl
translate_details_again (cons v vs) ws h =
    let (x, one, h1) = >>=-eq-ok (translate_detail v) _ h in
    let (xs, more, h2) = >>=-eq-ok (translate_details vs) _ h1 in
    subst (λ y. translate_details y ≡ ok y) (ok-injective h2)
      (rw (translate_detail_again v x one, translate_details_again vs xs more) refl)

-- A bill that has nothing left to inject or to rename.
record IsSettled (auto_invoice auto_merge : Bool) (b : Fields) : Type 0 where
  pub invoice : auto_invoice ≡ true → contains "autoInvoice" b ≡ true
  pub merge : auto_merge ≡ true → contains "autoMerge" b ≡ true
  pub items : (contains "items" b && not (contains "billDetail" b)) ≡ false

settled_again :
    (auto_invoice auto_merge : Bool) (b : Fields)
    → IsSettled auto_invoice auto_merge b
    → rename_items (inject auto_invoice auto_merge b) ≡ b
unfolding rename_items inject
settled_again true true b s = rw (s.invoice refl, s.merge refl, s.items) refl
settled_again true false b s = rw (s.invoice refl, s.items) refl
settled_again false true b s = rw (s.merge refl, s.items) refl
settled_again false false b s = rw s.items refl

settled_items :
    (b : Fields)
    → (contains "items" (rename_items b) && not (contains "billDetail" (rename_items b))) ≡ false
unfolding rename_items
settled_items b = elim (Bool-cases (contains "items" b && not (contains "billDetail" b))) [
  | inl e ↦ rw e (and_not _ _ (contains-rename_new "items" "billDetail" b))
  | inr e ↦ rw e e
]

contains-rename_items :
    (j : String) (b : Fields)
    → ("items" == j) ≡ false
    → ("billDetail" == j) ≡ false
    → contains j (rename_items b) ≡ contains j b
unfolding rename_items
contains-rename_items j b x y =
    elim (Bool-cases (contains "items" b && not (contains "billDetail" b))) [
      | inl e ↦ rw e (contains-rename "items" "billDetail" j b x y)
      | inr e ↦ rw e refl
    ]

contains-set_default : (k : String) (v : Value) (d : Fields) → contains k (set_default k v d) ≡ true
contains-set_default k v d = elim (Bool-cases (contains k d)) [
  | inl e ↦ rw e e
  | inr e ↦ rw e (simp (contains-put, eq_refl))
]

contains-set_default_other :
    (k j : String) (v : Value) (d : Fields)
    → (k == j) ≡ false
    → contains j (set_default k v d) ≡ contains j d
contains-set_default_other k j v d h = elim (Bool-cases (contains k d)) [
  | inl e ↦ rw e refl
  | inr e ↦ rw e (rw (contains-put k j v d, h) refl)
]

injected_invoice :
    (auto_merge : Bool) (b : Fields) → contains "autoInvoice" (inject true auto_merge b) ≡ true
unfolding inject
injected_invoice true b =
    contains-set_default_other "autoMerge" "autoInvoice" (str "1")
      (set_default "autoInvoice" (str "1") b) refl
    ∙ contains-set_default "autoInvoice" (str "1") b
injected_invoice false b = contains-set_default "autoInvoice" (str "1") b

injected_merge :
    (auto_invoice : Bool) (b : Fields) → contains "autoMerge" (inject auto_invoice true b) ≡ true
unfolding inject
injected_merge true b =
    contains-set_default "autoMerge" (str "1") (set_default "autoInvoice" (str "1") b)
injected_merge false b = contains-set_default "autoMerge" (str "1") b

prepared-IsSettled :
    (auto_invoice auto_merge : Bool) (b : Fields)
    → IsSettled auto_invoice auto_merge (rename_items (inject auto_invoice auto_merge b))
prepared-IsSettled i g b = record {
  invoice = λ e.
      contains-rename_items "autoInvoice" (inject i g b) refl refl
      ∙ subst (λ x. contains "autoInvoice" (inject x g b) ≡ true) (sym e) (injected_invoice g b);
  merge = λ e.
      contains-rename_items "autoMerge" (inject i g b) refl refl
      ∙ subst (λ x. contains "autoMerge" (inject i x b) ≡ true) (sym e) (injected_merge i b);
  items = settled_items (inject i g b);
}

put-IsSettled :
    (i g : Bool) (v : Value) (b : Fields) → IsSettled i g b → IsSettled i g (put "billDetail" v b)
put-IsSettled i g v b s = record {
  invoice = λ e. contains-put "billDetail" "autoInvoice" v b ∙ s.invoice e;
  merge = λ e. contains-put "billDetail" "autoMerge" v b ∙ s.merge e;
  items = and_not _ _ (simp contains-put);
}

-- the part of the loop's body behind the renaming
translated_again :
    (i g : Bool) (b r : Fields) (v : Value)
    → IsSettled i g b
    → get "billDetail" b ≡ v
    → translate_listed b v ≡ ok r
    → translate_bill i g r ≡ ok r
unfolding translate_bill
translated_again i g b r (arr vs) s here h =
    let (ws, done, h1) = >>=-eq-ok (translate_details vs) _ h in
    let bill = put "billDetail" (arr ws) b in
    subst (λ x. translate_bill i g x ≡ ok x) (ok-injective h1)
      (rw
        (
          settled_again i g bill (put-IsSettled i g (arr ws) b s),
          get-put_self "billDetail" (arr ws) b,
          translate_details_again vs ws done,
          put-same "billDetail" (arr ws) bill (get-put_self "billDetail" (arr ws) b)
              (simp contains-put),
        )
        refl)
translated_again i g b r _ s here h =
    subst (λ x. translate_bill i g x ≡ ok x) (ok-injective h)
      (rw (settled_again i g b s, here) refl)

pub translate_bill_again :
    (auto_invoice auto_merge : Bool) (bill b : Fields)
    → translate_bill auto_invoice auto_merge bill ≡ ok b
    → translate_bill auto_invoice auto_merge b ≡ ok b
unfolding translate_bill
translate_bill_again i g bill b h =
    translated_again i g (rename_items (inject i g bill)) b
      (get "billDetail" (rename_items (inject i g bill))) (prepared-IsSettled i g bill) refl h

-- Bills that `_translate_bills` has translated stay as they are when it translates them again with
-- the same flags.
pub translate_bills_again :
    (auto_invoice auto_merge : Bool) (bills translated : List Fields)
    → translate_bills auto_invoice auto_merge bills ≡ ok translated
    → translate_bills auto_invoice auto_merge translated ≡ ok translated
unfolding translate_bills
translate_bills_again i g [] out h = subst (λ x. translate_bills i g x ≡ ok x) (ok-injective h) refl
translate_bills_again i g (bill ∷ bills) out h =
    let (b, one, h1) = >>=-eq-ok (translate_bill i g bill) _ h in
    let (bs, more, h2) = >>=-eq-ok (translate_bills i g bills) _ h1 in
    subst (λ x. translate_bills i g x ≡ ok x) (ok-injective h2)
      (rw (translate_bill_again i g bill b one, translate_bills_again i g bills bs more) refl)
