-- ===== src/Examples/Endpoints.antt =====
-- proxy-server/app/endpoints at concrete inputs.
use open_yzj.Prelude.{List, Result, [], false, none, ok, raise, refl, true, ℕ, ◌∷◌, ◌≡◌}
use open_yzj.Value.{
  Fields, Value, arr, cons, contains, end, field, get, int, nil, obj, pop, put, str,
}
use open_yzj.Http.{Request}
use open_yzj.Mongo.Memory.{memory}
use open_yzj.Proxy.Kdcloud.{KeyCache}
use open_yzj.Proxy.Kdcloud.Gateway.{init_kdcloud_client}
use open_yzj.Proxy.Endpoints.Bills.{translate_bills}
use open_yzj.Proxy.Endpoints.Bills.Terms.{AreTranslated, translate_bills-AreTranslated}
use open_yzj.Proxy.Endpoints.Passing.{Moment, serve}
use open_yzj.Proxy.Endpoints.Passing.Answers.{Ending, serve-Ending}
use open_yzj.Examples.Samples.{plain}
use open_yzj.Examples.Access.{conf, granting, no_docs, nonce, wire}

-- a bill with one row, under the caller's names
abbrev bills : List Fields
bills =
    field "billNo" (str "A-1") (
      field "items"
        (arr (cons (obj (field "billSourceId" (str "7") (field "amount" (int 3) end))) nil)) end)
    ∷ []

abbrev bills_after : List Fields
bills_after = elim (translate_bills true false bills) [ ok bs ↦ bs | raise e ↦ [] ]

bills_translated : translate_bills true false bills ≡ ok bills_after
unfolding translate_bills get contains put pop
bills_translated = refl

translate_bills_example : AreTranslated true false bills bills_after
translate_bills_example =
    translate_bills-AreTranslated true false bills bills_after bills_translated

bills_renamed :
    bills_after
    ≡ field "billNo" (str "A-1") (
        field "autoInvoice" (str "1") (
          field "billDetail"
            (arr (cons (obj (field "amount" (int 3) (field "detailId" (str "7") end))) nil))
            end))
      ∷ []
unfolding translate_bills get contains put pop
bills_renamed = refl

abbrev at : Moment
at = record { now = 5; now2 = 6; now3 = 7; iv = nonce }

abbrev asking : Request
asking = record {
  method = "POST";
  path = "/api/proxy/v1/vehicle/info";
  headers = [];
  query_params = [];
  client_host = none;
  body = [];
}

-- a call that gives its token back
abbrev echoing : Result (Value → KeyCache × ℕ → Result Value × (KeyCache × ℕ))
echoing = ok (λ given s. (ok given, s))

serve_example :
    Ending memory granting plain conf
      (init_kdcloud_client conf "test")
      wire
      "failed"
      at
      asking
      echoing
      no_docs
      none
      0
      (serve memory granting plain conf
        (init_kdcloud_client conf "test")
        wire
        "failed"
        at
        asking
        echoing
        (no_docs, (none, 0)))
serve_example =
    serve-Ending memory granting plain conf (init_kdcloud_client conf "test") wire "failed" at
      asking echoing no_docs none 0
