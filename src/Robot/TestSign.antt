-- ===== src/Robot/TestSign.antt =====
-- scripts/gen_test_sign.py: the signatures of the test message.
use open_yzj.Prelude.{
  Bool-cases, List, Result, String, [], if◌then◌else◌, inl, inr, key_error, ok, raise, refl,
  type_error, ℕ, ◌>>=◌, ◌∷◌, ◌≡◌,
}
use open_yzj.Bytes.{Integer, encode}
use open_yzj.Value.{Fields, Value, contains, end, field, get, int, str}
use open_yzj.Value.Methods.{Codec, integer_text, integer_value, text_of}
use open_yzj.Robot.Message.{Payload}
use open_yzj.Robot.Signature.{Algo, calc_sign, join_commas}

-- `TEST_PARAMS`
abbrev pub test_params : Fields
test_params = field "robotId" (str "test-robotId") (
    field "robotName" (str "test-robotName") (
      field "operatorOpenid" (str "test-userId") (
        field "operatorName" (str "test-userName") (
          field "time" (int 1599727083000)
            (field "msgId" (str "test-msgId") (field "content" (str "你好，你能做什么呢?") end))))))

-- `TEST_SECRET`
abbrev pub test_secret : String
test_secret = "test-secret"

-- `d[key]`
abbrev pub item_of : String → Fields → Result Value
item_of key d = if contains key d then ok (get key d) else raise key_error

-- the elements of a list that `",".join` takes
abbrev pub as_texts : List Value → Result (List String)
as_texts [] = ok []
as_texts (str s ∷ vs) = do more ← as_texts vs; ok (s ∷ more)
as_texts (_ ∷ vs) = raise type_error

-- `calc_sign`; `hmac_b64` is the base64 text of the HMAC
module _ (hmac_b64 : Algo → List ℕ → List ℕ → String) (c : Codec) where
  unfoldable pub sign_params : String → Fields → Algo → Result String
  sign_params secret params algo = do
    robot_id ← item_of "robotId" params
    robot_name ← item_of "robotName" params
    operator_openid ← item_of "operatorOpenid" params
    operator_name ← item_of "operatorName" params
    time ← item_of "time" params
    msg_id ← item_of "msgId" params
    content ← item_of "content" params
    fields ← as_texts (
        robot_id
        ∷ robot_name
        ∷ operator_openid
        ∷ operator_name
        ∷ str (text_of c time)
        ∷ msg_id
        ∷ content
        ∷ [])
    ok (hmac_b64 algo (encode secret) (encode (join_commas fields)))

  -- the parameters that a payload sends
  abbrev pub params_of : Payload → Fields
  params_of p = field "robotId" (str p.robot_id) (
      field "robotName" (str p.robot_name) (
        field "operatorOpenid" (str p.operator_openid) (
          field "operatorName" (str p.operator_name) (
            field "time" (integer_value p.time)
              (field "msgId" (str p.msg_id) (field "content" (str p.content) end))))))

  text_of-integer_value : (i : Integer) → text_of c (integer_value i) ≡ integer_text i
  text_of-integer_value i = elim (Bool-cases i.negative) [ inl e ↦ rw e refl | inr e ↦ rw e refl ]

  -- The script signs the parameters of a payload as the server does.
  pub sign_params-eq-calc_sign :
      (secret : String) (p : Payload) (algo : Algo)
      → sign_params secret (params_of p) algo ≡ ok (calc_sign hmac_b64 secret p algo)
  unfolding sign_params calc_sign get contains
  sign_params-eq-calc_sign secret p algo = rw (text_of-integer_value p.time) refl
