-- ===== src/Proxy/Endpoints/Bills.antt =====
-- proxy-server/app/endpoints/invoicing.py, `_translate_bills`: a caller's bills in the vendor's
-- terms.
pub mod Idempotence
pub mod Details
pub mod Flags
pub mod Terms
use open_yzj.Prelude.{
  Bool, List, Result, String, [], any, attribute_error, has_text, if◌then◌else◌, not, ok, raise,
  type_error, ◌&&◌, ◌>>=◌, ◌∷◌,
}
use open_yzj.Value.{
  Fields, Items, Value, arr, cons, contains, get, is_text, nil, obj, pop, put, str, to_list,
}

-- `d.setdefault(k, v)`
abbrev pub set_default : String → Value → Fields → Fields
set_default k v d = if contains k d then d else put k v d

-- `d[new] = d.pop(old)`
abbrev pub rename : String → String → Fields → Fields
rename old new d = put new (get old d) (pop old d)

-- the two flags
unfoldable pub inject : Bool → Bool → Fields → Fields
inject auto_invoice auto_merge b =
    let c = if auto_invoice then set_default "autoInvoice" (str "1") b else b in
    if auto_merge then set_default "autoMerge" (str "1") c else c

-- `items` becomes `billDetail`
unfoldable pub rename_items : Fields → Fields
rename_items b =
    if contains "items" b && not (contains "billDetail" b) then rename "items" "billDetail" b else b

-- `billSourceId` becomes `detailId`; a detail that is no dict is tested like the text or the list
-- that it is, and has no such `pop`
unfoldable pub translate_detail : Value → Result Value
translate_detail (obj d) = ok (
    obj (
      if contains "billSourceId" d && not (contains "detailId" d)
      then rename "billSourceId" "detailId" d
      else d))
translate_detail (str s) =
    if has_text "billSourceId" s && not (has_text "detailId" s)
    then raise attribute_error
    else ok (str s)
translate_detail (arr vs) =
    if any (is_text "billSourceId") (to_list vs) && not (any (is_text "detailId") (to_list vs))
    then raise type_error
    else ok (arr vs)
translate_detail _ = raise type_error

unfoldable pub translate_details : Items → Result Items
unfolding translate_detail
translate_details nil = ok nil
translate_details (cons v vs) = do w ← translate_detail v; ws ← translate_details vs; ok (cons w ws)

unfoldable pub translate_listed : Fields → Value → Result Fields
unfolding translate_details
translate_listed b (arr vs) = do ws ← translate_details vs; ok (put "billDetail" (arr ws) b)
translate_listed b _ = ok b

-- the body of the loop
unfoldable pub translate_bill : Bool → Bool → Fields → Result Fields
unfolding inject rename_items translate_listed
translate_bill auto_invoice auto_merge bill =
    let b = rename_items (inject auto_invoice auto_merge bill) in
    translate_listed b (get "billDetail" b)

-- `_translate_bills`
unfoldable pub translate_bills : Bool → Bool → List Fields → Result (List Fields)
unfolding translate_bill
translate_bills auto_invoice auto_merge [] = ok []
translate_bills auto_invoice auto_merge (bill ∷ bills) = do
  b ← translate_bill auto_invoice auto_merge bill
  bs ← translate_bills auto_invoice auto_merge bills
  ok (b ∷ bs)
