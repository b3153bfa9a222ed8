-- ===== src/Proxy/Forwarder/Envelope.antt =====
-- What holds of every payload, whatever the kind of invoice.
use open_yzj.Prelude.{
  =?_iff, >>=-eq-ok, All, Bool-cases, List, String, [], any, ap, arith, false, has_char, inl, inr,
  is_empty, length, length-map, map, min, ok, ok-injective, raise-ne-ok, refl, split, split_pos,
  strip, suc, text_length, true, ℕ, ◌==◌, ◌=?◌, ◌>>=◌, ◌∙◌, ◌∷◌, ◌≡◌, ◌≤◌,
}
use open_yzj.Value.{
  Fields, Value, arr, bool, drop_nulls, end, field, get, int, is_null, nil, null, num, obj, str,
  ◌or◌,
}
use open_yzj.Value.Methods.{Codec, char_values, elements, get_default, len_value, strip_value}
use open_yzj.Proxy.Forwarder.Payload.{
  build_inner, build_outer, build_system_a_payloads, decode_invoice, inner_dict, is_vehicle,
  merged_payloads, payloads_for, split_payloads,
}

-- `_INNER_FIELDS`
abbrev pub inner_fields : List String
inner_fields =
    "billNo" ∷ "invoiceDate" ∷ "invoiceNum" ∷ "totalAmount" ∷ "totalTaxAmount" ∷ "invoicePdfFileUrl"
    ∷ "drawer" ∷ []

abbrev EachField : (String → Value → Type 0) → Fields → Type 0
EachField P end = Unit
EachField P (field k v d) = P k v × EachField P d

abbrev IsInnerField : String → Value → Type 0
IsInnerField k v = (any (λ f. f == k) inner_fields ≡ true) × (is_null v ≡ false)

EachField-drop_nulls :
    (P : String → Type 0) (d : Fields)
    → EachField (λ k v. P k) d
    → EachField (λ k v. P k × (is_null v ≡ false)) (drop_nulls d)
unfolding drop_nulls
EachField-drop_nulls P end h = tt
EachField-drop_nulls P (field k null d) (p, h) = EachField-drop_nulls P d h
EachField-drop_nulls P (field k (bool b) d) (p, h) = ((p, refl), EachField-drop_nulls P d h)
EachField-drop_nulls P (field k (int n) d) (p, h) = ((p, refl), EachField-drop_nulls P d h)
EachField-drop_nulls P (field k (num n) d) (p, h) = ((p, refl), EachField-drop_nulls P d h)
EachField-drop_nulls P (field k (str s) d) (p, h) = ((p, refl), EachField-drop_nulls P d h)
EachField-drop_nulls P (field k (arr vs) d) (p, h) = ((p, refl), EachField-drop_nulls P d h)
EachField-drop_nulls P (field k (obj e) d) (p, h) = ((p, refl), EachField-drop_nulls P d h)

-- One payload: an outer envelope round the code of an inner dict that has only the seven fields,
-- none of them `None`, and names its document.
abbrev pub IsEnvelope : Codec → Fields → Fields → Type 0
IsEnvelope c parsed p =
    (inner : Fields) × (bill_no : String) × (p ≡ build_outer parsed (c.dumps_b64 (obj inner)))
    × EachField IsInnerField inner
    × (get "billNo" inner ≡ str bill_no)

build_inner-IsInner :
    (invoice : Fields) (b : String) (amount tax : Value)
    → EachField IsInnerField (build_inner invoice b amount tax)
unfolding build_inner
build_inner-IsInner invoice b amount tax =
    EachField-drop_nulls (λ k. any (λ f. f == k) inner_fields ≡ true)
      (inner_dict invoice b amount tax) (refl, (refl, (refl, (refl, (refl, (refl, (refl, tt)))))))

get-bill_no-build_inner :
    (invoice : Fields) (b : String) (amount tax : Value)
    → get "billNo" (build_inner invoice b amount tax) ≡ str b
unfolding build_inner get
get-bill_no-build_inner invoice b amount tax = refl

build_inner-IsEnvelope :
    (c : Codec) (parsed invoice : Fields) (b : String) (amount tax : Value)
    → IsEnvelope c parsed
        (build_outer parsed (c.dumps_b64 (obj (build_inner invoice b amount tax))))
build_inner-IsEnvelope c parsed invoice b amount tax = (
  build_inner invoice b amount tax,
  b,
  refl,
  build_inner-IsInner invoice b amount tax,
  get-bill_no-build_inner invoice b amount tax,
)

-- The rounds of the splitting loop: one envelope for each document that has a row.
split_payloads-IsEnvelope :
    (c : Codec) (parsed invoice : Fields) (bs : List String) (vs : List Value) (ps : List Fields)
    → split_payloads c parsed invoice bs vs ≡ ok ps
    → All (IsEnvelope c parsed) ps × (length ps ≡ min (length bs) (length vs))
unfolding split_payloads
split_payloads-IsEnvelope c parsed invoice [] vs ps h = rw (← ok-injective h) (tt, omega arith)
split_payloads-IsEnvelope c parsed invoice (b ∷ bs) [] ps h =
    rw (← ok-injective h) (tt, omega arith)
split_payloads-IsEnvelope c parsed invoice (b ∷ bs) (obj row ∷ vs) ps h =
    let (rest, made, whole) = >>=-eq-ok (split_payloads c parsed invoice bs vs) _ h in
    let (good, count) = split_payloads-IsEnvelope c parsed invoice bs vs rest made in
    rw (← ok-injective whole) (
      (build_inner-IsEnvelope c parsed invoice b (get "amount" row) (get "taxAmount" row), good),
      omega arith,
    )
split_payloads-IsEnvelope c parsed invoice (b ∷ bs) (v ∷ vs) ps h = cc

length-char_values : (s : String) → length (char_values s) ≡ text_length s
unfolding char_values
length-char_values String.[] = refl
length-char_values (String.◌∷◌ c s) = ap suc (length-char_values s)

-- Where indexing works at all, it gives as many values as `len` counts.
length-elements :
    (v : Value) (n : ℕ) (vs : List Value) → len_value v ≡ ok n → elements v ≡ ok vs → length vs ≡ n
unfolding len_value elements
length-elements null n vs l e = cc
length-elements (bool b) n vs l e = cc
length-elements (int k) n vs l e = cc
length-elements (num k) n vs l e = cc
length-elements (str s) n vs l e = rw (← ok-injective e, ← ok-injective l) (length-char_values s)
length-elements (arr ws) n vs l e = rw (← ok-injective e, ← ok-injective l)
length-elements (obj d) n vs l e = cc

-- The loop over the rows, after the two counts were compared.
rows-IsEnvelope :
    (c : Codec) (parsed invoice : Fields) (bs : List String) (details : Value) (n : ℕ)
    (ps : List Fields)
    → len_value details ≡ ok n
    → length bs ≡ n
    → (elements details >>= split_payloads c parsed invoice bs) ≡ ok ps
    → All (IsEnvelope c parsed) ps × (length ps ≡ length bs)
rows-IsEnvelope c parsed invoice bs details n ps counted same h =
    let (vs, listed, made) = >>=-eq-ok (elements details) (split_payloads c parsed invoice bs) h in
    let (good, count) = split_payloads-IsEnvelope c parsed invoice bs vs ps made in
    (good, omega (arith, length-elements details n vs counted listed))

-- On a merged invoice there is one envelope for each document.
merged_payloads-IsEnvelope :
    (c : Codec) (parsed invoice : Fields) (raw : String) (ps : List Fields)
    → merged_payloads c parsed invoice raw ≡ ok ps
    → All (IsEnvelope c parsed) ps × (length ps ≡ length (split b',' raw))
unfolding merged_payloads
merged_payloads-IsEnvelope c parsed invoice raw ps h =
    let details = get_default "invoiceDetail" (arr nil) invoice in
    let bs = map strip (split b',' raw) in
    let (n, counted, h1) = >>=-eq-ok (len_value details) _ h in
    elim (Bool-cases (length bs =? n)) [
      | inl e ↦
          let (good, count) =
            rows-IsEnvelope c parsed invoice bs details n ps counted ((=?_iff _ _).0 e)
              (rw e at h1) in
          (good, count ∙ length-map strip (split b',' raw))
      | inr e ↦ absurd (raise-ne-ok (rw e at h1))
    ]

payloads_for-IsEnvelope :
    (c : Codec) (parsed invoice : Fields) (raw : String) (ps : List Fields)
    → payloads_for c parsed invoice raw ≡ ok ps
    → All (IsEnvelope c parsed) ps × (1 ≤ length ps)
unfolding payloads_for
payloads_for-IsEnvelope c parsed invoice raw ps h = elim (Bool-cases (is_empty raw)) [
  | inl e ↦ absurd (raise-ne-ok (rw e at h))
  | inr filled ↦ elim (Bool-cases (is_vehicle invoice)) [
    | inl car ↦
        rw (← ok-injective (rw (filled, car) at h))
          ((build_inner-IsEnvelope c parsed invoice raw _ _, tt), omega arith)
    | inr plain ↦ elim (Bool-cases (has_char b',' raw)) [
      | inl several ↦
          let (good, count) =
            merged_payloads-IsEnvelope c parsed invoice raw ps (rw (filled, plain, several) at h) in
          (good, omega (arith, split_pos b',' raw))
      | inr one ↦
          rw (← ok-injective (rw (filled, plain, one) at h))
            ((build_inner-IsEnvelope c parsed invoice raw _ _, tt), omega arith)
    ]
  ]
]

-- When a callback yields payloads for System A, there is at least one, and each is the outer
-- envelope of that callback round the code of a dict that has only the seven fields of
-- `_INNER_FIELDS`, none of them `None`, and whose `billNo` is a text.
pub build_system_a_payloads-IsEnvelope :
    (c : Codec) (parsed : Fields) (ps : List Fields)
    → build_system_a_payloads c parsed ≡ ok ps
    → All (IsEnvelope c parsed) ps × (1 ≤ length ps)
unfolding build_system_a_payloads
build_system_a_payloads-IsEnvelope c parsed ps h =
    let (invoice, _, h1) = >>=-eq-ok (decode_invoice c (obj parsed)) _ h in
    let (raw, _, h2) =
      >>=-eq-ok (strip_value (get "billNo" invoice or get "serialNo" invoice or str "")) _ h1 in
    payloads_for-IsEnvelope c parsed invoice raw ps h2
