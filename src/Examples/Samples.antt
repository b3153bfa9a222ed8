-- ===== src/Examples/Samples.antt =====
-- Data for the examples: a codec that knows a few texts, invoices, and a network that answers.
use open_yzj.Prelude.{
  List, Result, String, [], arith, if◌then◌else◌, map, ok, raise, suc, true, type_error,
  value_error, ℕ, ◌==◌, ◌∷◌, ◌≢◌,
}
use open_yzj.Value.{Fields, Value, arr, bool, end, field, int, obj, of_list, str}
use open_yzj.Value.Methods.{Codec}
use open_yzj.Mongo.Memory.{Docs}
use open_yzj.Proxy.Forwarder.Send.{Response}

abbrev pub two_rows : List Fields
two_rows =
    field "amount" (int 60) (field "taxAmount" (int 6) end)
    ∷ field "amount" (int 40) (field "taxAmount" (int 4) end)
    ∷ []

-- two documents on one invoice
abbrev pub two_invoice : Fields
two_invoice = field "billNo" (str "A-1, A-2") (
    field "invoiceDate" (str "2026-01-31 08:00:00") (
      field "invoiceNum" (str "0042")
        (field "invoiceDetail" (arr (of_list (map obj two_rows))) end)))

abbrev pub plain : Codec
plain = record {
  loads = λ s. raise value_error;
  loads_b64 = λ s. if s == "two" then ok (obj two_invoice) else raise value_error;
  dumps_b64 = λ v. "encoded";
  repr = λ v. "{...}";
  timestamp = λ t. t;
}

abbrev pub two_parsed : Fields
two_parsed =
    field "interfaceCode" (str "INVOICE.OPEN")
      (field "returnCode" (str "0") (field "data" (str "two") end))

-- a network that counts the requests and accepts them
abbrev pub accepting : ℕ → String → Fields → Result Response × ℕ
accepting n url p = (
  ok (record { status_code = 200; json = ok (obj (field "success" (bool true) end)); text = "" }),
  suc n,
)

-- the same, for addresses that may be no texts
abbrev pub accepting_texts : ℕ → Value → Fields → Result Response × ℕ
accepting_texts n (str url) p = accepting n url p
accepting_texts n _ p = (raise type_error, n)

abbrev pub event : Fields
event = field "_id" (str "e1") (
    field "endpoint" (str "by-invoice") (
      field "return_code" (str "0")
        (field "matched_client_id" (str "c1") (field "parsed" (obj two_parsed) end))))

abbrev pub client : Fields
client = field "client_id" (str "c1") (
    field "api_key" (str "k1") (
      field "status" (str "active") (
        field "callback_url" (str "https://a.example")
          (field "rate_limit" (int 2) (field "api_secret_encrypted" (str "sealed") end)))))

-- one stored event and one client
abbrev pub stored : Docs
stored k =
    if k == "kdcloud_callbacks"
    then event ∷ []
    else if k == "proxy_clients"
    then client ∷ []
    else []

pub two-ne-zero : ◌≢◌ {A = ℕ} 2 0
two-ne-zero h = omega (arith, h)
