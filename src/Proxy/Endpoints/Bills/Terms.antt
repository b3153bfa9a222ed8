-- ===== src/Proxy/Endpoints/Bills/Terms.antt =====
-- What `_translate_bills` makes of a bill, field by field.
use open_yzj.Proxy.Endpoints.Bills.Idempotence.{translate_bill_again}
use open_yzj.Prelude.{
  >>=-eq-ok, Bool, Bool-cases, List, String, [], arith, false, if◌then◌else◌, inl, inr, ok,
  ok-injective, refl, subst, true, ◌==◌, ◌∙◌, ◌∷◌, ◌≡◌, ◌⊎◌,
}
use open_yzj.Value.{
  Fields, Value, arr, bool, contains, contains-put, get, get-put, int, null, num, obj, pop, str,
}
use open_yzj.Proxy.Endpoints.Bills.{
  inject, rename_items, translate_bill, translate_bills, translate_details, translate_listed,
}
use open_yzj.Proxy.Endpoints.Bills.Details.{
  IsDetailList, IsMoved, IsTranslated, is_one_of, moves, renamed-IsMoved, touched,
  translate_details-AreDetails,
}
use open_yzj.Proxy.Endpoints.Bills.Flags.{get-inject_invoice, get-inject_merge, inject-IsBeside}

record IsListed (v : Value) (b r : Fields) : Type 0 where
  pub details : IsDetailList v (get "billDetail" r)
  pub others : (k : String) → ("billDetail" == k) ≡ false → get k r ≡ get k b
  pub items : contains "items" r ≡ contains "items" b

IsListed-same : (v : Value) (b : Fields) → IsDetailList v (get "billDetail" b) → IsListed v b b
IsListed-same v b h = record { details = h; others = λ k e. refl; items = refl }

translate_listed-IsListed :
    (b r : Fields) (v : Value)
    → get "billDetail" b ≡ v
    → translate_listed b v ≡ ok r
    → IsListed v b r
unfolding translate_listed
translate_listed-IsListed b r (arr vs) here h =
    let (ws, made, h1) = >>=-eq-ok (translate_details vs) _ h in
    subst (IsListed (arr vs) b) (ok-injective h1) (record {
      details = (
        ws,
        rw (get-put "billDetail" "billDetail" (arr ws) b) refl,
        translate_details-AreDetails vs ws made,
      );
      others = λ k e. rw (get-put "billDetail" k (arr ws) b, e) refl;
      items = rw (contains-put "billDetail" "items" (arr ws) b) refl;
    })
translate_listed-IsListed b r null here h =
    subst (IsListed null b) (ok-injective h) (IsListed-same null b here)
translate_listed-IsListed b r (bool x) here h =
    subst (IsListed (bool x) b) (ok-injective h) (IsListed-same (bool x) b here)
translate_listed-IsListed b r (int n) here h =
    subst (IsListed (int n) b) (ok-injective h) (IsListed-same (int n) b here)
translate_listed-IsListed b r (num n) here h =
    subst (IsListed (num n) b) (ok-injective h) (IsListed-same (num n) b here)
translate_listed-IsListed b r (str s) here h =
    subst (IsListed (str s) b) (ok-injective h) (IsListed-same (str s) b here)
translate_listed-IsListed b r (obj d) here h =
    subst (IsListed (obj d) b) (ok-injective h) (IsListed-same (obj d) b here)

rename_items-IsMoved : (b : Fields) → IsMoved "items" "billDetail" b (rename_items b)
unfolding rename_items
rename_items-IsMoved b = renamed-IsMoved "items" "billDetail" refl b

-- Of a field that is not touched, a step of a translation that moves `items` says nothing else.
moved_other :
    (j : String) (b r : Fields)
    → IsMoved "items" "billDetail" b r
    → is_one_of ("items" ∷ "billDetail" ∷ []) j ≡ false
    → get j r ≡ get j b
moved_other j b r m h = elim (m.others j) [ inl e ↦ cc | inr (same, here) ↦ same ]

module _ (i g : Bool) (bill : Fields) where
  abbrev injected : Fields
  injected = inject i g bill

  abbrev prepared : Fields
  prepared = rename_items injected

  moves_same : moves "items" "billDetail" injected ≡ moves "items" "billDetail" bill
  moves_same =
      rw
        (
          (inject-IsBeside i g "items" bill refl refl).here,
          (inject-IsBeside i g "billDetail" bill refl refl).here,
        )
        refl

  prepared_details :
      get "billDetail" prepared
      ≡ (if moves "items" "billDetail" bill then get "items" bill else get "billDetail" bill)
  prepared_details =
      (rename_items-IsMoved injected).value
      ∙ rw
          (
            moves_same,
            (inject-IsBeside i g "items" bill refl refl).value,
            (inject-IsBeside i g "billDetail" bill refl refl).value,
          )
          refl

  prepared_left : contains "items" prepared ≡ (
      if moves "items" "billDetail" bill
      then contains "items" (pop "items" bill)
      else contains "items" bill)
  prepared_left =
      (rename_items-IsMoved injected).left
      ∙ rw
          (
            moves_same,
            (inject-IsBeside i g "items" bill refl refl).rest,
            (inject-IsBeside i g "items" bill refl refl).here,
          )
          refl

  module _ (b : Fields) (listed : IsListed (get "billDetail" prepared) prepared b) where
    untouched : (k : String) → (is_one_of touched k ≡ true) ⊎ (get k b ≡ get k bill)
    untouched k = elim (Bool-cases (is_one_of touched k)) [
      | inl e ↦ inl e
      | inr e ↦
          let a : ("autoInvoice" == k) ≡ false = ground (arith, e) in
          let c : ("autoMerge" == k) ≡ false = ground (arith, e) in
          let d : ("billDetail" == k) ≡ false = ground (arith, e) in
          let f : is_one_of ("items" ∷ "billDetail" ∷ []) k ≡ false = ground (arith, e) in
          inr (
            listed.others k d
            ∙ (moved_other k injected prepared (rename_items-IsMoved injected) f
                ∙ (inject-IsBeside i g k bill a c).value))
    ]

    listed-IsTranslated : translate_bill i g bill ≡ ok b → IsTranslated i g bill b
    listed-IsTranslated h = record {
      invoice =
          listed.others "autoInvoice" refl
          ∙ (moved_other "autoInvoice" injected prepared (rename_items-IsMoved injected) refl
              ∙ get-inject_invoice i g bill);
      merge =
          listed.others "autoMerge" refl
          ∙ (moved_other "autoMerge" injected prepared (rename_items-IsMoved injected) refl
              ∙ get-inject_merge i g bill);
      details = subst (λ v. IsDetailList v (get "billDetail" b)) prepared_details listed.details;
      left = listed.items ∙ prepared_left;
      others = untouched;
      again = translate_bill_again i g bill b h;
    }

translate_bill-IsTranslated :
    (i g : Bool) (bill b : Fields) → translate_bill i g bill ≡ ok b → IsTranslated i g bill b
unfolding translate_bill
translate_bill-IsTranslated i g bill b h =
    listed-IsTranslated i g bill b
      (translate_listed-IsListed (rename_items (inject i g bill)) b
        (get "billDetail" (rename_items (inject i g bill))) refl h)
      h

-- each bill and what became of it
abbrev pub AreTranslated : Bool → Bool → List Fields → List Fields → Type 0
AreTranslated i g [] [] = Unit {0}
AreTranslated i g (bill ∷ bills) (b ∷ bs) = IsTranslated i g bill b × AreTranslated i g bills bs
AreTranslated i g _ _ = ⊥

-- When `_translate_bills` returns, it gives each bill in order, in the vendor's terms. A flag that
-- is on puts "1" under its name, unless the caller has put something there. `items` becomes
-- `billDetail`, unless that is there; and where `billDetail` is a list, each dict of it has its
-- `billSourceId` as `detailId`, unless that is there. A field that is renamed is taken out under
-- its old name; all the other fields, and the details that are no dicts, stay. Translated again
-- with the same flags, the bill stays as it is.
pub translate_bills-AreTranslated :
    (auto_invoice auto_merge : Bool) (bills translated : List Fields)
    → translate_bills auto_invoice auto_merge bills ≡ ok translated
    → AreTranslated auto_invoice auto_merge bills translated
unfolding translate_bills
translate_bills-AreTranslated i g [] out h = subst (AreTranslated i g []) (ok-injective h) tt
translate_bills-AreTranslated i g (bill ∷ bills) out h =
    let (b, one, h1) = >>=-eq-ok (translate_bill i g bill) _ h in
    let (bs, more, h2) = >>=-eq-ok (translate_bills i g bills) _ h1 in
    subst (AreTranslated i g (bill ∷ bills)) (ok-injective h2)
      (translate_bill-IsTranslated i g bill b one, translate_bills-AreTranslated i g bills bs more)
