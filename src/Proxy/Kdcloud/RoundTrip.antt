-- ===== src/Proxy/Kdcloud/RoundTrip.antt =====
-- What is encoded is decoded again, whatever keys the two sides have cached.
use open_yzj.Value.{Value}
use open_yzj.Prelude.{
  Bool, Bool-cases, List, String, ap, arith, drop, drop-append, eq_iff, false, if◌then◌else◌, inl,
  inr, is_empty, length, none, not, null_list, ok, refl, some, sym, take, take-append, true, ℕ,
  ◌&&◌, ◌++◌, ◌==◌, ◌∙◌, ◌≡◌,
}
use open_yzj.Bytes.{encode}
use open_yzj.Proxy.Kdcloud.{
  KeyCache, Wire, aes_decrypt, aes_encrypt, decode_data, derive_aes_key, encode_data, key_of,
}

-- The bytes that stand for a payload before base64: its JSON, sealed when a key is configured.
abbrev pub wired : Wire → String → List ℕ → Value → List ℕ
wired w raw iv payload =
    if not (is_empty raw)
    then iv ++ w.encrypt (key_of w raw) iv (encode (w.dumps payload))
    else encode (w.dumps payload)

-- The libraries do what they promise for a payload: each decodes what it encoded, and the cipher
-- opens what it sealed with the same key and nonce.
pub record IsFaithful (w : Wire) (raw : String) (iv : List ℕ) (payload : Value) : Type 0 where
  pub json : w.loads (w.dumps payload) ≡ ok payload
  pub text : w.decode (encode (w.dumps payload)) ≡ ok (w.dumps payload)
  pub base64 : w.b64decode (w.b64encode (wired w raw iv payload)) ≡ ok (wired w raw iv payload)
  pub cipher :
      w.decrypt (key_of w raw) iv (w.encrypt (key_of w raw) iv (encode (w.dumps payload)))
      ≡ ok (encode (w.dumps payload))

-- A cache holds the key of the text that it names.
pub data IsCoherent (w : Wire) : KeyCache → Type 0 where
  unset : IsCoherent w none
  holds : (raw : String) → IsCoherent w (some (raw, key_of w raw))

and_left : (a b : Bool) → (a && b) ≡ true → a ≡ true
and_left a b h = ground arith

derive_aes_key_lem :
    (w : Wire) (raw : String) (cache : KeyCache)
    → IsCoherent w cache
    → ((derive_aes_key w raw cache).0 ≡ key_of w raw) × IsCoherent w (derive_aes_key w raw cache).1
unfolding derive_aes_key
derive_aes_key_lem w raw _ unset = (refl, holds raw)
derive_aes_key_lem w raw _ (holds cached) =
    elim (Bool-cases ((cached == raw) && not (null_list (key_of w cached)))) [
      | inl e ↦
          let same : cached ≡ raw =
            (eq_iff cached raw).0
              (and_left (cached == raw) (not (null_list (key_of w cached))) e) in
          rw e (ap (key_of w) same, holds cached)
      | inr e ↦ rw e (refl, holds raw)
    ]

head_of : (iv sealed : List ℕ) → length iv ≡ 12 → take 12 (iv ++ sealed) ≡ iv
head_of iv sealed h = ap (λ n. take n (iv ++ sealed)) (sym h) ∙ take-append iv sealed

tail_of : (iv sealed : List ℕ) → length iv ≡ 12 → drop 12 (iv ++ sealed) ≡ sealed
tail_of iv sealed h = ap (λ n. drop n (iv ++ sealed)) (sym h) ∙ drop-append iv sealed

module _ (w : Wire) (raw : String) (iv : List ℕ) (payload : Value)
    (good : IsFaithful w raw iv payload) (a b : KeyCache) (twelve : length iv ≡ 12)
    (ca : IsCoherent w a) (cb : IsCoherent w b) where
  sealed_bytes :
      (aes_encrypt w raw iv (w.dumps payload) a).0
      ≡ iv ++ w.encrypt (key_of w raw) iv (encode (w.dumps payload))
  unfolding aes_encrypt
  sealed_bytes = rw (derive_aes_key_lem w raw a ca).0 refl

  opened :
      (aes_decrypt w raw (iv ++ w.encrypt (key_of w raw) iv (encode (w.dumps payload))) b).0
      ≡ ok (w.dumps payload)
  unfolding aes_decrypt
  opened =
      let sealed = w.encrypt (key_of w raw) iv (encode (w.dumps payload)) in
      rw
        (
          (derive_aes_key_lem w raw b cb).0,
          head_of iv sealed twelve,
          tail_of iv sealed twelve,
          good.cipher,
        )
        good.text

  base64_sealed :
      not (is_empty raw) ≡ true
      → w.b64decode (w.b64encode (iv ++ w.encrypt (key_of w raw) iv (encode (w.dumps payload))))
        ≡ ok (iv ++ w.encrypt (key_of w raw) iv (encode (w.dumps payload)))
  base64_sealed keyed = rw keyed at good.base64

  base64_plain :
      not (is_empty raw) ≡ false
      → w.b64decode (w.b64encode (encode (w.dumps payload))) ≡ ok (encode (w.dumps payload))
  base64_plain plain = rw plain at good.base64

  -- What `_encode_data` makes of a payload, `_decode_data` reads back, with a key and without one,
  -- and whatever keys the two sides have cached, provided that a cache holds the key of the text it
  -- names, the nonce has twelve bytes, and the libraries decode what they encoded.
  pub decode_data-encode_data :
      (decode_data w raw (encode_data w raw iv payload a).0 b).0 ≡ ok payload
  unfolding encode_data decode_data
  decode_data-encode_data = elim (Bool-cases (not (is_empty raw))) [
    | inl keyed ↦ rw (keyed, sealed_bytes, base64_sealed keyed) (rw keyed (rw opened good.json))
    | inr plain ↦ rw (plain, base64_plain plain) (rw plain (rw good.text good.json))
  ]
