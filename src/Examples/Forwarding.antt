-- ===== src/Examples/Forwarding.antt =====
-- proxy-server/app/forwarder.py at concrete inputs.

use open_yzj.Proxy.Forwarder.Splitting.{Splits, merged_payloads-Splits}
use open_yzj.Prelude.{
  All, List, String, [], eq_iff, forward_unsupported, has_char, length, map, none, ok, raise, refl,
  some, split, strip, true, true-ne-false, ◌>>=◌, ◌↔◌, ◌≡◌, ◌≢◌, ◌≤◌,
}
use open_yzj.Value.{Fields, arr, contains, end, get, is_text, obj, of_list, str}
use open_yzj.Mongo.{find_first}
use open_yzj.Mongo.Memory.{Docs, memory, memory-IsDocumented}
use open_yzj.Proxy.Forwarder.Payload.{
  build_system_a_payloads, decode_invoice, merged_payloads, resolve_parsed,
}
use open_yzj.Proxy.Forwarder.Envelope.{IsEnvelope, build_system_a_payloads-IsEnvelope}
use open_yzj.Proxy.Forwarder.Send.{ForwardResult, forward_to_system_a}
use open_yzj.Proxy.Forwarder.Outcome.{IsReport, forward_to_system_a_reports}
use open_yzj.Proxy.Forwarder.Record.{
  IsRecorded, record_forward_result, record_forward_result-IsRecorded, record_forward_result_other,
}
use open_yzj.Proxy.Callbacks.Flat.{
  data_items, decode_data_field, extract_flat_fields, extract_flat_fields_lem, filled_values,
  text_or_none,
}
use open_yzj.Proxy.Callbacks.Agreement.{decode_invoice_iff}
use open_yzj.Examples.Samples.{
  accepting_texts, event, plain, stored, two_invoice, two_parsed, two_rows,
}

abbrev two_payloads : List Fields
two_payloads = elim (build_system_a_payloads plain two_parsed) [ ok ps ↦ ps | raise e ↦ [] ]

two_built : build_system_a_payloads plain two_parsed ≡ ok two_payloads
unfolding build_system_a_payloads get contains strip has_char split
two_built = refl

build_system_a_payloads_example :
    All (IsEnvelope plain two_parsed) two_payloads × (1 ≤ length two_payloads)
build_system_a_payloads_example =
    build_system_a_payloads-IsEnvelope plain two_parsed two_payloads two_built

two_listed : contains "invoiceDetail" two_invoice ≡ true
unfolding contains
two_listed = refl

two_detailed : get "invoiceDetail" two_invoice ≡ arr (of_list (map obj two_rows))
unfolding get
two_detailed = refl

merged_payloads_example :
    Splits plain two_parsed two_invoice
      (map strip (split b',' "A-1, A-2"))
      two_rows
      (merged_payloads plain two_parsed two_invoice "A-1, A-2")
merged_payloads_example =
    merged_payloads-Splits plain two_parsed two_invoice "A-1, A-2" two_rows two_listed two_detailed

event_resolved : resolve_parsed plain event ≡ ok two_parsed
unfolding resolve_parsed get
event_resolved = refl

forward_example :
    IsReport accepting_texts plain
      (str "https://a.example")
      two_payloads
      0
      (forward_to_system_a accepting_texts plain event (str "https://a.example") 0)
forward_example =
    forward_to_system_a_reports accepting_texts plain event two_parsed (str "https://a.example") 0
      two_payloads refl event_resolved two_built

empty_refused :
    (resolve_parsed plain end >>= build_system_a_payloads plain)
    ≡ raise (forward_unsupported "落库记录无可用的 JSON 回调体")
unfolding resolve_parsed get
empty_refused = refl

abbrev sent : ForwardResult
sent = record {
  succeeded = true;
  status_code = some 200;
  error = none;
  target_url = str "https://a.example";
}

abbrev after : Docs
after = (record_forward_result memory 7 (str "e1") (str "https://a.example") sent stored).1

was_recorded :
    record_forward_result memory 7 (str "e1") (str "https://a.example") sent stored ≡ (ok 1, after)
unfolding record_forward_result
was_recorded = refl

event_found : find_first (λ e. is_text "e1" (get "_id" e)) (stored "kdcloud_callbacks") ≡ some event
unfolding find_first get
event_found = refl

record_forward_result_example :
    (e : Fields) × (find_first (λ d. is_text "e1" (get "_id" d)) (after "kdcloud_callbacks")
      ≡ some e)
    × IsRecorded 7 (str "https://a.example") sent event e
record_forward_result_example =
    record_forward_result-IsRecorded memory memory-IsDocumented 7 "e1" (str "https://a.example")
      sent stored after 1 was_recorded event event_found

names_apart : ◌≢◌ {A = String} "e1" "e2"
names_apart h = absurd (true-ne-false ((eq_iff "e1" "e2").1 h) refl)

record_forward_result_other_example :
    find_first (λ d. is_text "e2" (get "_id" d)) (after "kdcloud_callbacks")
    ≡ find_first (λ d. is_text "e2" (get "_id" d)) (stored "kdcloud_callbacks")
record_forward_result_other_example =
    record_forward_result_other memory memory-IsDocumented 7 "e1" (str "https://a.example") sent
      stored after 1 was_recorded "e2" names_apart

decode_invoice_example :
    (decode_invoice plain (obj two_parsed) ≡ ok two_invoice)
    ↔ (decode_data_field plain (get "data" two_parsed) ≡ obj two_invoice)
decode_invoice_example = decode_invoice_iff plain two_parsed two_invoice

extract_flat_fields_example :
    let flat = extract_flat_fields plain (obj two_parsed) in
    let items = data_items (decode_data_field plain (get "data" two_parsed)) in
    (flat.serial_nos ≡ filled_values "serialNo" items)
    × (flat.bill_nos ≡ filled_values "billNo" items)
    × (flat.batches ≡ filled_values "batch" items)
    × (flat.system_sources ≡ filled_values "systemSource" items)
    × (flat.interface_code ≡ text_or_none (get "interfaceCode" two_parsed))
    × (flat.return_code ≡ text_or_none (get "returnCode" two_parsed))
extract_flat_fields_example = extract_flat_fields_lem plain two_parsed
