-- ===== src/Proxy/Forwarder/Splitting.antt =====
-- What the payloads are when one invoice is for several documents.
use open_yzj.Prelude.{
  =?_iff, Bool-cases, List, Result, String, [], arith, forward_unsupported, if◌then◌else◌, inl, inr,
  length, length-map, map, ok, raise, refl, split, strip, true, ◌==◌, ◌=?◌, ◌∷◌, ◌≡◌, ◌≢◌,
}
use open_yzj.Value.{
  Fields, Value, arr, bool, contains, drop_nulls, end, field, get, int, is_null, null, num, obj,
  of_list, str, to_list-of_list, ◌or◌,
}
use open_yzj.Value.Methods.{Codec, len_value}
use open_yzj.Proxy.Forwarder.Payload.{
  build_inner, build_outer, cut_date, merged_payloads, mismatch_text, split_payloads,
}

get-drop_nulls :
    (k j : String) (v : Value) (d : Fields)
    → get k (drop_nulls (field j v d))
      ≡ (if j == k then (if is_null v then get k (drop_nulls d) else v) else get k (drop_nulls d))
unfolding get drop_nulls
get-drop_nulls k j null d = elim (Bool-cases (j == k)) [ inl e ↦ rw e refl | inr e ↦ rw e refl ]
get-drop_nulls k j (bool b) d = refl
get-drop_nulls k j (int n) d = refl
get-drop_nulls k j (num n) d = refl
get-drop_nulls k j (str s) d = refl
get-drop_nulls k j (arr vs) d = refl
get-drop_nulls k j (obj e) d = refl

-- Dropping a last `None` makes no difference to a reading.
null_or : (v : Value) → (if is_null v then null else v) ≡ v
null_or null = refl
null_or (bool b) = refl
null_or (int n) = refl
null_or (num n) = refl
null_or (str s) = refl
null_or (arr vs) = refl
null_or (obj e) = refl

module _ (c : Codec) (parsed invoice : Fields) where
  -- What the payload of one document says: its envelope carries the code of a dict with the number
  -- of the document, the amount and the tax of its row, and the rest from the invoice.
  pub record IsSplit (bill_no : String) (row payload : Fields) : Type 0 where
    pub inner : Fields
    pub coded : get "data" payload ≡ str (c.dumps_b64 (obj inner))
    pub interface_code :
        get "interfaceCode" payload ≡ get "interfaceCode" parsed or str "INVOICE.OPEN"
    pub return_code : get "returnCode" payload ≡ get "returnCode" parsed or str "0"
    pub return_msg : get "returnMsg" payload ≡ get "returnMsg" parsed
    pub number : get "billNo" inner ≡ str bill_no
    pub amount : get "totalAmount" inner ≡ get "amount" row
    pub tax : get "totalTaxAmount" inner ≡ get "taxAmount" row
    pub date : get "invoiceDate" inner ≡ cut_date (get "invoiceDate" invoice)
    pub invoice_number :
        get "invoiceNum" inner ≡ get "invoiceNum" invoice or get "invoiceNo" invoice
    pub file :
        get "invoicePdfFileUrl" inner
        ≡ get "invoicePdfFileUrl" invoice or get "invoiceFileUrl" invoice
    pub drawer : get "drawer" inner ≡ get "drawer" invoice

  outer_msg : (b : String) → get "returnMsg" (build_outer parsed b) ≡ get "returnMsg" parsed
  unfolding build_outer get
  outer_msg b = outer_msg_of (get "returnMsg" parsed)
    where
      outer_msg_of :
          (v : Value) → get "returnMsg" (if is_null v then end else field "returnMsg" v end) ≡ v
      outer_msg_of null = refl
      outer_msg_of (bool b) = refl
      outer_msg_of (int n) = refl
      outer_msg_of (num n) = refl
      outer_msg_of (str s) = refl
      outer_msg_of (arr vs) = refl
      outer_msg_of (obj e) = refl

  built-IsSplit :
      (b : String) (row : Fields)
      → IsSplit b row (
          build_outer parsed
            (c.dumps_b64 (obj (build_inner invoice b (get "amount" row) (get "taxAmount" row)))))
  unfolding build_outer build_inner get drop_nulls
  built-IsSplit b row = record {
    inner = build_inner invoice b (get "amount" row) (get "taxAmount" row);
    coded = refl;
    interface_code = refl;
    return_code = refl;
    return_msg =
        outer_msg
          (c.dumps_b64 (obj (build_inner invoice b (get "amount" row) (get "taxAmount" row))));
    number = refl;
    amount = simp (get-drop_nulls, null_or);
    tax = simp (get-drop_nulls, null_or);
    date = simp (get-drop_nulls, null_or);
    invoice_number = simp (get-drop_nulls, null_or);
    file = simp (get-drop_nulls, null_or);
    drawer = simp (get-drop_nulls, null_or);
  }

  -- one payload for each document and its row, in order
  abbrev pub AreSplit : List String → List Fields → List Fields → Type 0
  AreSplit [] [] [] = Unit {0}
  AreSplit (b ∷ bs) (row ∷ rows) (p ∷ ps) = IsSplit b row p × AreSplit bs rows ps
  AreSplit _ _ _ = ⊥

  -- What an answer says of the documents and the rows.
  abbrev pub Splits : List String → List Fields → Result (List Fields) → Type 0
  Splits bs rows (ok ps) = (length bs ≡ length rows) × AreSplit bs rows ps
  Splits bs rows (raise e) =
      (length bs ≢ length rows)
      × (e ≡ forward_unsupported (mismatch_text (length bs) (length rows)))

  split_payloads-AreSplit :
      (bs : List String) (rows : List Fields)
      → length bs ≡ length rows
      → (ps : List Fields) × (split_payloads c parsed invoice bs (map obj rows) ≡ ok ps)
        × AreSplit bs rows ps
  unfolding split_payloads
  split_payloads-AreSplit [] [] h = ([], refl, tt)
  split_payloads-AreSplit [] (row ∷ rows) h = absurd (omega (arith, h))
  split_payloads-AreSplit (b ∷ bs) [] h = absurd (omega (arith, h))
  split_payloads-AreSplit (b ∷ bs) (row ∷ rows) h =
      let (ps, made, each) = split_payloads-AreSplit bs rows (omega (arith, h)) in
      (
        build_outer parsed
              (c.dumps_b64 (obj (build_inner invoice b (get "amount" row) (get "taxAmount" row))))
            ∷ ps,
        rw made refl,
        (built-IsSplit b row, each),
      )

  -- An invoice for several documents, whose detail rows are dicts, gives one payload for each
  -- document in order when the rows are as many as the documents: its envelope has the code and the
  -- message of the callback and carries the code of a dict with the number of the document, the
  -- amount and the tax of its row, and the date, the number, the file and the drawer of the
  -- invoice. When the rows are not as many, it is refused with the error that names both numbers.
  pub merged_payloads-Splits :
      (raw : String) (rows : List Fields)
      → contains "invoiceDetail" invoice ≡ true
      → get "invoiceDetail" invoice ≡ arr (of_list (map obj rows))
      → Splits (map strip (split b',' raw)) rows (merged_payloads c parsed invoice raw)
  unfolding merged_payloads len_value
  merged_payloads-Splits raw rows listed detailed =
      let bs = map strip (split b',' raw) in
      rw (listed, detailed, to_list-of_list, length-map obj rows)
        (elim (Bool-cases (length bs =? length rows)) [
          | inl e ↦
              let (ps, made, each) = split_payloads-AreSplit bs rows ((=?_iff _ _).0 e) in
              rw (e, made) ((=?_iff _ _).0 e, each)
          | inr e ↦ rw e ((λ same. cc ((=?_iff (length bs) (length rows)).1 same)), refl)
        ])
