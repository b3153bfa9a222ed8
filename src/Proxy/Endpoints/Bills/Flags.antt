-- ===== src/Proxy/Endpoints/Bills/Flags.antt =====
-- What the two flags of `_translate_bills` leave of a bill.
use open_yzj.Prelude.{
  Bool, Bool-cases, String, arith, eq_iff, eq_refl, false, if◌then◌else◌, inl, inr, not, refl, true,
  ◌==◌, ◌∙◌, ◌≡◌,
}
use open_yzj.Value.{Fields, Value, contains, contains-put, end, field, get, get-put, pop, put, str}
use open_yzj.Proxy.Endpoints.Bills.{inject, set_default}
use open_yzj.Proxy.Endpoints.Bills.Details.{flag}

contains-pop-put :
    (k j : String) (v : Value) (d : Fields)
    → (k == j) ≡ false
    → contains j (pop j (put k v d)) ≡ contains j (pop j d)
unfolding contains pop put
contains-pop-put k j v end h = ground (arith, h)
contains-pop-put k j v (field i w d) h =
    ground
      (arith, h, eq_iff k j, eq_iff i k, eq_iff i j, contains-pop-put k j v d, contains-put k j v d)

-- what `set_default` leaves of the other fields
pub record IsBeside (j : String) (d e : Fields) : Type 0 where
  pub value : get j e ≡ get j d
  pub here : contains j e ≡ contains j d
  pub rest : contains j (pop j e) ≡ contains j (pop j d)

IsBeside-same : (j : String) (d : Fields) → IsBeside j d d
IsBeside-same j d = record { value = refl; here = refl; rest = refl }

IsBeside-then : (j : String) (d e f : Fields) → IsBeside j d e → IsBeside j e f → IsBeside j d f
IsBeside-then j d e f a b = record {
  value = b.value ∙ a.value;
  here = b.here ∙ a.here;
  rest = b.rest ∙ a.rest;
}

set_default-IsBeside :
    (k j : String) (v : Value) (d : Fields) → (k == j) ≡ false → IsBeside j d (set_default k v d)
set_default-IsBeside k j v d h = elim (Bool-cases (contains k d)) [
  | inl e ↦ rw e (IsBeside-same j d)
  | inr e ↦ rw e (record {
    value = rw (get-put k j v d, h) refl;
    here = rw (contains-put k j v d, h) refl;
    rest = contains-pop-put k j v d h;
  })
]

get-set_default :
    (k : String) (v : Value) (d : Fields)
    → get k (set_default k v d) ≡ (if not (contains k d) then v else get k d)
get-set_default k v d = elim (Bool-cases (contains k d)) [
  | inl e ↦ rw e refl
  | inr e ↦ rw e (rw (get-put k k v d, eq_refl k) refl)
]

pub inject-IsBeside :
    (i g : Bool) (j : String) (d : Fields)
    → ("autoInvoice" == j) ≡ false
    → ("autoMerge" == j) ≡ false
    → IsBeside j d (inject i g d)
unfolding inject
inject-IsBeside true true j d a b =
    IsBeside-then j d (set_default "autoInvoice" (str "1") d) _
      (set_default-IsBeside "autoInvoice" j (str "1") d a)
      (set_default-IsBeside "autoMerge" j (str "1") (set_default "autoInvoice" (str "1") d) b)
inject-IsBeside true false j d a b = set_default-IsBeside "autoInvoice" j (str "1") d a
inject-IsBeside false true j d a b = set_default-IsBeside "autoMerge" j (str "1") d b
inject-IsBeside false false j d a b = IsBeside-same j d

pub get-inject_invoice :
    (i g : Bool) (d : Fields) → get "autoInvoice" (inject i g d) ≡ flag i "autoInvoice" d
unfolding inject
get-inject_invoice true true d =
    (set_default-IsBeside "autoMerge" "autoInvoice" (str "1")
      (set_default "autoInvoice" (str "1") d) refl).value
    ∙ get-set_default "autoInvoice" (str "1") d
get-inject_invoice true false d = get-set_default "autoInvoice" (str "1") d
get-inject_invoice false true d =
    (set_default-IsBeside "autoMerge" "autoInvoice" (str "1") d refl).value
get-inject_invoice false false d = refl

pub get-inject_merge :
    (i g : Bool) (d : Fields) → get "autoMerge" (inject i g d) ≡ flag g "autoMerge" d
unfolding inject
get-inject_merge true true d =
    let beside = set_default-IsBeside "autoInvoice" "autoMerge" (str "1") d refl in
    get-set_default "autoMerge" (str "1") (set_default "autoInvoice" (str "1") d)
    ∙ rw (beside.here, beside.value) refl
get-inject_merge false true d = get-set_default "autoMerge" (str "1") d
get-inject_merge true false d =
    (set_default-IsBeside "autoInvoice" "autoMerge" (str "1") d refl).value
get-inject_merge false false d = refl
