-- ===== src/Proxy/Forwarder/Payload.antt =====
-- proxy-server/app/forwarder.py: a stored callback becomes the payloads for System A.
use open_yzj.Prelude.{
  Bool, List, Result, String, [], concat, decimal, exc_text, forward_unsupported, has_char,
  if◌then◌else◌, is_empty, leb, length, map, not, ok, prefix, raise, split, strip, text_length, ℕ,
  ◌=?◌, ◌>>=◌, ◌∷◌,
}
use open_yzj.Value.{
  Fields, Value, arr, drop_nulls, end, field, get, is_null, nil, obj, str, truthy, ◌or◌,
}
use open_yzj.Value.Methods.{Codec, elements, get_default, get_value, len_value, strip_value}

unfoldable pub as_invoice : Value → Result Fields
as_invoice (arr _) = raise (forward_unsupported "按单回调（data 为数组）本期不支持转发")
as_invoice (obj d) = ok d
as_invoice _ = raise (forward_unsupported "data 结构无法识别，无法转发")

-- `_build_outer`
unfoldable pub build_outer : Fields → String → Fields
build_outer parsed inner_b64 =
    let return_msg = get "returnMsg" parsed in
    field "interfaceCode" (get "interfaceCode" parsed or str "INVOICE.OPEN") (
      field "returnCode" (get "returnCode" parsed or str "0") (
        field "data" (str inner_b64)
          (if is_null return_msg then end else field "returnMsg" return_msg end)))

-- `_is_vehicle`
unfoldable pub is_vehicle : Fields → Bool
is_vehicle invoice = truthy (get "vehicleIdentificationCode" invoice or get "vehicleUuid" invoice)

-- the cut of `invoiceDate` to `yyyy-MM-dd`
unfoldable pub cut_date : Value → Value
cut_date (str s) = if leb 10 (text_length s) then str (prefix 10 s) else str s
cut_date v = v

-- the seven fields of `_build_inner`, before the `None`s are dropped
abbrev pub inner_dict : Fields → String → Value → Value → Fields
inner_dict invoice bill_no total_amount total_tax_amount = field "billNo" (str bill_no) (
    field "invoiceDate" (cut_date (get "invoiceDate" invoice)) (
      field "invoiceNum" (get "invoiceNum" invoice or get "invoiceNo" invoice) (
        field "totalAmount" total_amount (
          field "totalTaxAmount" total_tax_amount (
            field "invoicePdfFileUrl"
              (get "invoicePdfFileUrl" invoice or get "invoiceFileUrl" invoice)
              (field "drawer" (get "drawer" invoice) end))))))

-- `_build_inner`
unfoldable pub build_inner : Fields → String → Value → Value → Fields
unfolding cut_date drop_nulls
build_inner invoice bill_no total_amount total_tax_amount =
    drop_nulls (inner_dict invoice bill_no total_amount total_tax_amount)

-- the text of the error when the documents and the rows do not match
abbrev pub mismatch_text : ℕ → ℕ → String
mismatch_text bills rows = concat "billNo 含 " (
    concat (decimal bills)
      (concat " 张单据，invoiceDetail " (concat (decimal rows) " 行，无法一一对应，需要人工核实")))

module _ (c : Codec) where
  unfoldable pub decode_data : Value → Result Value
  decode_data (str s) = if is_empty s then ok (str s) else elim (c.loads_b64 s) [
    | ok v ↦ ok v
    | raise e ↦ raise (forward_unsupported (concat "data base64 解码失败: " (exc_text e)))
  ]
  decode_data v = ok v

  -- `_decode_invoice`
  unfoldable pub decode_invoice : Value → Result Fields
  unfolding decode_data as_invoice
  decode_invoice (obj parsed) = do
    data_value ← decode_data (get "data" parsed)
    as_invoice data_value
  decode_invoice _ = raise (forward_unsupported "回调体不是 JSON 对象，无法转发")

  -- the loop over `bill_nos` and `details`, which have one length
  unfoldable pub split_payloads : Fields → Fields → List String → List Value → Result (List Fields)
  unfolding get_value
  split_payloads parsed invoice (bill_no ∷ bill_nos) (detail ∷ details) = do
    amount ← get_value "amount" detail
    tax_amount ← get_value "taxAmount" detail
    rest ← split_payloads parsed invoice bill_nos details
    let inner = build_inner invoice bill_no amount tax_amount
    ok (build_outer parsed (c.dumps_b64 (obj inner)) ∷ rest)
  split_payloads parsed invoice _ _ = ok []

  -- `_build_system_a_payloads` for several documents on one invoice
  unfoldable pub merged_payloads : Fields → Fields → String → Result (List Fields)
  unfolding split_payloads len_value elements
  merged_payloads parsed invoice bill_no_raw =
      let bill_nos = map strip (split b',' bill_no_raw) in
      let details = get_default "invoiceDetail" (arr nil) invoice in
      do
        rows ← len_value details
        if not (length bill_nos =? rows)
            then raise (forward_unsupported (mismatch_text (length bill_nos) rows))
            else do
              rows_values ← elements details
              split_payloads parsed invoice bill_nos rows_values

  unfoldable pub one_payload : Fields → Fields → String → String → List Fields
  one_payload parsed invoice bill_no amount_key =
      let inner =
        build_inner invoice bill_no (get amount_key invoice) (get "totalTaxAmount" invoice) in
      build_outer parsed (c.dumps_b64 (obj inner)) ∷ []

  -- `_build_system_a_payloads` from the decoded invoice and its document number on
  unfoldable pub payloads_for : Fields → Fields → String → Result (List Fields)
  unfolding one_payload merged_payloads is_vehicle
  payloads_for parsed invoice bill_no_raw =
      if is_empty bill_no_raw
      then raise (forward_unsupported "发票数据缺少 billNo/serialNo，System A 无法定位单据")
      else if is_vehicle invoice
      then ok (one_payload parsed invoice bill_no_raw "invoiceAmount")
      else if not (has_char b',' bill_no_raw)
      then ok (one_payload parsed invoice bill_no_raw "totalAmount")
      else merged_payloads parsed invoice bill_no_raw

  -- `_build_system_a_payloads`
  unfoldable pub build_system_a_payloads : Fields → Result (List Fields)
  unfolding decode_invoice strip_value payloads_for
  build_system_a_payloads parsed = do
    invoice ← decode_invoice (obj parsed)
    bill_no_raw ← strip_value (get "billNo" invoice or get "serialNo" invoice or str "")
    payloads_for parsed invoice bill_no_raw

  -- the fallback of `_resolve_parsed`: the raw body, parsed again
  unfoldable pub parsed_again : Value → Result Fields
  parsed_again (str raw) =
      if is_empty raw then raise (forward_unsupported "落库记录无可用的 JSON 回调体") else elim (c.loads raw) [
        | ok (obj d) ↦ ok d
        | _ ↦ raise (forward_unsupported "落库记录无可用的 JSON 回调体")
      ]
  parsed_again _ = raise (forward_unsupported "落库记录无可用的 JSON 回调体")

  -- `_resolve_parsed`
  unfoldable pub resolve_parsed : Fields → Result Fields
  unfolding parsed_again
  resolve_parsed doc = elim (get "parsed" doc) [
    | obj d ↦ ok d
    | _ ↦ parsed_again (get "raw_body" doc)
  ]
