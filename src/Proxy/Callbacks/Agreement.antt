-- ===== src/Proxy/Callbacks/Agreement.antt =====
-- The stored fields and the forwarder read one and the same invoice.
use open_yzj.Prelude.{
  Bool-cases, Exc, Result, ap, concat, exc_text, forward_unsupported, inl, inr, is_empty, ok,
  ok-injective, raise, ◌>>=◌, ◌↔◌, ◌≡◌,
}
use open_yzj.Value.{Fields, Value, arr, bool, get, int, null, num, obj, str}
use open_yzj.Value.Methods.{Codec}
use open_yzj.Proxy.Forwarder.Payload.{as_invoice, decode_data, decode_invoice}
use open_yzj.Proxy.Callbacks.Flat.{decode_data_field}

obj-injective : {d e : Fields} → obj d ≡ obj e → d ≡ e
obj-injective h = cc

as_invoice_iff : (v : Value) (d : Fields) → (as_invoice v ≡ ok d) ↔ (v ≡ obj d)
unfolding as_invoice
as_invoice_iff (obj e) d = (λ h. ap obj (ok-injective h), λ h. ap ok (obj-injective h))
as_invoice_iff null d = (λ h. cc, λ h. cc)
as_invoice_iff (bool b) d = (λ h. cc, λ h. cc)
as_invoice_iff (int n) d = (λ h. cc, λ h. cc)
as_invoice_iff (num n) d = (λ h. cc, λ h. cc)
as_invoice_iff (str s) d = (λ h. cc, λ h. cc)
as_invoice_iff (arr vs) d = (λ h. cc, λ h. cc)

refused_iff : (e : Exc) (d : Fields) → (◌≡◌ {A = Result Fields} (raise e) (ok d)) ↔ (null ≡ obj d)
refused_iff e d = (λ h. cc, λ h. cc)

loaded_iff :
    (r : Result Value) (d : Fields) (f : Exc → Exc)
    → ((elim r [ ok v ↦ ok v | raise e ↦ raise (f e) ] >>= as_invoice) ≡ ok d)
      ↔ (◌≡◌ {A = Value} (elim r [ ok v ↦ v | raise e ↦ null ]) (obj d))
loaded_iff (ok v) d f = as_invoice_iff v d
loaded_iff (raise e) d f = refused_iff (f e) d

decoded_iff :
    (c : Codec) (v : Value) (d : Fields)
    → ((decode_data c v >>= as_invoice) ≡ ok d) ↔ (decode_data_field c v ≡ obj d)
unfolding decode_data decode_data_field as_invoice
decoded_iff c (str s) d = elim (Bool-cases (is_empty s)) [
  | inl e ↦ rw e (λ h. cc, λ h. cc)
  | inr e ↦ rw e (
      loaded_iff (c.loads_b64 s) d
        (λ e. forward_unsupported (concat "data base64 解码失败: " (exc_text e))))
]
decoded_iff c (obj e) d = as_invoice_iff (obj e) d
decoded_iff c (arr vs) d = as_invoice_iff (arr vs) d
decoded_iff c null d = (λ h. cc, λ h. cc)
decoded_iff c (bool b) d = (λ h. cc, λ h. cc)
decoded_iff c (int n) d = (λ h. cc, λ h. cc)
decoded_iff c (num n) d = (λ h. cc, λ h. cc)

-- The forwarder decodes a callback to an invoice exactly when the receiver, which decodes the same
-- field by a function of its own, read that dict out of it.
pub decode_invoice_iff :
    (c : Codec) (parsed d : Fields)
    → (decode_invoice c (obj parsed) ≡ ok d) ↔ (decode_data_field c (get "data" parsed) ≡ obj d)
unfolding decode_invoice
decode_invoice_iff c parsed d = decoded_iff c (get "data" parsed) d
