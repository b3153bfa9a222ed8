-- ===== src/Proxy/Callbacks/Flat.antt =====
-- proxy-server/app/endpoints/callbacks.py: what is read out of a callback's body and headers.
use open_yzj.Prelude.{
  Bool, Bool-cases, List, String, [], append-nil, append_assoc, false, if◌then◌else◌, inl, inr,
  is_empty, none, not, ok, raise, refl, some, split, strip, sym, true, ◌++◌, ◌∙◌, ◌∷◌, ◌≡◌,
}
use open_yzj.Value.{Fields, Value, arr, bool, get, int, null, num, obj, str, to_list}
use open_yzj.Value.Methods.{Codec}
use open_yzj.Http.{Request, lookup_or_empty}

-- `xff.split(",")[0].strip()`
abbrev first_part : List String → String
first_part [] = ""
first_part (s ∷ ss) = strip s

-- `_client_ip`
unfoldable pub client_ip : Request → String
client_ip req =
    let xff = lookup_or_empty "x-forwarded-for" req.headers in
    let xri = lookup_or_empty "x-real-ip" req.headers in
    if not (is_empty xff)
    then first_part (split b',' xff)
    else if not (is_empty xri)
    then strip xri
    else elim req.client_host [ none ↦ "" | some host ↦ host ]

-- `_decode_data_field`
unfoldable pub decode_data_field : Codec → Value → Value
decode_data_field c (obj d) = obj d
decode_data_field c (arr vs) = arr vs
decode_data_field c (str s) =
    if is_empty s then null else elim (c.loads_b64 s) [ ok v ↦ v | raise e ↦ null ]
decode_data_field c _ = null

-- The flat fields that are stored beside the body.
pub record Flat : Type 0 where
  pub interface_code : Value
  pub return_code : Value
  pub serial_nos : List Value
  pub bill_nos : List Value
  pub batches : List Value
  pub system_sources : List Value

-- `v is not None and v != ""`
abbrev pub is_filled : Value → Bool
is_filled null = false
is_filled (str s) = not (is_empty s)
is_filled _ = true

abbrev append_filled : List Value → Value → List Value
append_filled vs v = if is_filled v then vs ++ v ∷ [] else vs

-- `_append_from_dict`
unfoldable pub append_from_dict : Fields → Flat → Flat
append_from_dict item r = record r {
  serial_nos = append_filled r.serial_nos (get "serialNo" item);
  bill_nos = append_filled r.bill_nos (get "billNo" item);
  batches = append_filled r.batches (get "batch" item);
  system_sources = append_filled r.system_sources (get "systemSource" item);
}

abbrev append_from_value : Value → Flat → Flat
append_from_value (obj item) r = append_from_dict item r
append_from_value _ r = r

-- the loop over the items of a list
unfoldable pub append_from_list : List Value → Flat → Flat
unfolding append_from_dict
append_from_list [] r = r
append_from_list (v ∷ vs) r = append_from_list vs (append_from_value v r)

abbrev pub text_or_none : Value → Value
text_or_none (str s) = str s
text_or_none _ = null

abbrev pub empty_flat : Flat
empty_flat = record {
  interface_code = null;
  return_code = null;
  serial_nos = [];
  bill_nos = [];
  batches = [];
  system_sources = [];
}

abbrev append_from_data : Value → Flat → Flat
append_from_data (obj item) r = append_from_dict item r
append_from_data (arr vs) r = append_from_list (to_list vs) r
append_from_data _ r = r

-- `_extract_flat_fields`
unfoldable pub extract_flat_fields : Codec → Value → Flat
unfolding append_from_dict append_from_list decode_data_field
extract_flat_fields c (obj parsed) =
    append_from_data (decode_data_field c (get "data" parsed)) (record empty_flat {
      interface_code = text_or_none (get "interfaceCode" parsed);
      return_code = text_or_none (get "returnCode" parsed);
    })
extract_flat_fields c _ = empty_flat

-- What is known of each list: the filled values of one key, over the dicts among the items.
abbrev pub filled_values : String → List Value → List Value
filled_values key [] = []
filled_values key (obj item ∷ vs) = append_filled [] (get key item) ++ filled_values key vs
filled_values key (_ ∷ vs) = filled_values key vs

append_filled-append :
    (xs ys : List Value) (v : Value) → append_filled xs v ++ ys ≡ xs ++ (append_filled [] v ++ ys)
append_filled-append xs ys v = elim (Bool-cases (is_filled v)) [
  | inl e ↦ rw e (append_assoc xs (v ∷ []) ys)
  | inr e ↦ rw e
]

abbrev IsExtended : List Value → Flat → Flat → Type 0
IsExtended vs r q =
    (q.serial_nos ≡ r.serial_nos ++ filled_values "serialNo" vs)
    × (q.bill_nos ≡ r.bill_nos ++ filled_values "billNo" vs)
    × (q.batches ≡ r.batches ++ filled_values "batch" vs)
    × (q.system_sources ≡ r.system_sources ++ filled_values "systemSource" vs)
    × (q.interface_code ≡ r.interface_code)
    × (q.return_code ≡ r.return_code)

append_from_list_lem : (vs : List Value) (r : Flat) → IsExtended vs r (append_from_list vs r)
unfolding append_from_list
append_from_list_lem [] r =
    (sym (append-nil _), sym (append-nil _), sym (append-nil _), sym (append-nil _), refl, refl)
append_from_list_lem (obj item ∷ vs) r =
    let (a, b, c, d, e, f) = append_from_list_lem vs (append_from_dict item r) in
    unfold append_from_dict in
    (
      a ∙ append_filled-append r.serial_nos _ (get "serialNo" item),
      b ∙ append_filled-append r.bill_nos _ (get "billNo" item),
      c ∙ append_filled-append r.batches _ (get "batch" item),
      d ∙ append_filled-append r.system_sources _ (get "systemSource" item),
      e,
      f,
    )
append_from_list_lem (_ ∷ vs) r = append_from_list_lem vs r

-- The items that a decoded `data` stands for.
abbrev pub data_items : Value → List Value
data_items (obj item) = obj item ∷ []
data_items (arr vs) = to_list vs
data_items _ = []

append_from_data_lem : (v : Value) (r : Flat) → IsExtended (data_items v) r (append_from_data v r)
unfolding append_from_list
append_from_data_lem (obj item) r = append_from_list_lem (obj item ∷ []) r
append_from_data_lem (arr vs) r = append_from_list_lem (to_list vs) r
append_from_data_lem null r = append_from_list_lem [] r
append_from_data_lem (bool b) r = append_from_list_lem [] r
append_from_data_lem (int n) r = append_from_list_lem [] r
append_from_data_lem (num n) r = append_from_list_lem [] r
append_from_data_lem (str s) r = append_from_list_lem [] r

-- The fields that are stored beside the body of a callback list, for each of the four keys, the
-- values of the invoices in its data that are neither `None` nor empty, in order; the two codes are
-- the callback's when they are texts, and `None` otherwise.
pub extract_flat_fields_lem :
    (c : Codec) (parsed : Fields)
    → let flat = extract_flat_fields c (obj parsed) in
      let items = data_items (decode_data_field c (get "data" parsed)) in
      (flat.serial_nos ≡ filled_values "serialNo" items)
      × (flat.bill_nos ≡ filled_values "billNo" items)
      × (flat.batches ≡ filled_values "batch" items)
      × (flat.system_sources ≡ filled_values "systemSource" items)
      × (flat.interface_code ≡ text_or_none (get "interfaceCode" parsed))
      × (flat.return_code ≡ text_or_none (get "returnCode" parsed))
unfolding extract_flat_fields
extract_flat_fields_lem c parsed = append_from_data_lem (decode_data_field c (get "data" parsed)) _
