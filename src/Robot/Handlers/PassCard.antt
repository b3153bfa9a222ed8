-- ===== src/Robot/Handlers/PassCard.antt =====
-- server/app/services/handlers/mys4s_handler.py, the request for a pass and its signature, and
-- server/app/services/card_builder.py.
use open_yzj.Prelude.{
  List, Option, Result, String, [], code, concat, if◌then◌else◌, none, ok, raise, some, suc, zero,
  ℕ, ◌%◌, ◌/◌, ◌=?◌, ◌∷◌,
}
use open_yzj.Robot.Config.{Settings}
use open_yzj.Bytes.{encode}
use open_yzj.Value.{Fields, Value, end, field, put, str, ◌or◌}
use open_yzj.Value.Methods.{Codec, get_default, text_of}
use open_yzj.Proxy.Forwarder.Send.{Response}
use open_yzj.Proxy.Kdcloud.Gateway.{json_of, raise_for_status}

-- the character of a text with a given code, as a text
abbrev pub char_of : ℕ → String → Option String
char_of n String.[] = none
char_of n (String.◌∷◌ c s) = if code c =? n then some (String.◌∷◌ c String.[]) else char_of n s

abbrev pub nth_char : ℕ → String → String
nth_char n String.[] = ""
nth_char zero (String.◌∷◌ c s) = String.◌∷◌ c String.[]
nth_char (suc n) (String.◌∷◌ c s) = nth_char n s

-- the characters that `urllib.parse.quote` keeps
abbrev pub unreserved : String
unreserved = "ABCDEFGHIJKLMNOPQRSTUVWXYZabcdefghijklmnopqrstuvwxyz0123456789_.-~"

abbrev pub quote_byte : ℕ → String
quote_byte b = elim (char_of b unreserved) [
  | some s ↦ s
  | none ↦
      concat "%"
        (concat (nth_char (b / 16) "0123456789ABCDEF") (nth_char (b % 16) "0123456789ABCDEF"))
]

abbrev pub quote_bytes : List ℕ → String
quote_bytes [] = ""
quote_bytes (b ∷ bs) = concat (quote_byte b) (quote_bytes bs)

-- `urllib.parse.quote(s, safe='')`
unfoldable pub quote : String → String
unfolding encode
quote s = quote_bytes (encode s)

-- `f"{k}={quote(v)}"`, joined by `&`
abbrev pub join_params : List (String × String) → String
join_params [] = ""
join_params ((k, v) ∷ []) = concat k (concat "=" (quote v))
join_params ((k, v) ∷ more) =
    concat k (concat "=" (concat (quote v) (concat "&" (join_params more))))

-- the parameters of `_call_mys4s_api`, and the same sorted by their keys
abbrev pub pass_params : String → String → String → String → Fields
pass_params car_no service sid desc = field "car_no" (str car_no) (
    field "service" (str service)
      (field "user_tel" (str "") (field "sid" (str sid) (field "desc" (str desc) end))))

abbrev pub sorted_params : String → String → String → String → List (String × String)
sorted_params car_no service sid desc =
    ("car_no", car_no)
    ∷ ("desc", desc)
    ∷ ("service", service)
    ∷ ("sid", sid)
    ∷ ("user_tel", "")
    ∷ []

-- `build_pass_card_data`, before it is written as JSON
unfoldable pub pass_card : Codec → Fields → String → String → String → String → Fields
pass_card c pass_data company_name car_no service qr_image_url =
    field "appIcon"
      (str "https://www.yunzhijia.com/docrest/file/downloadfile/629f313edfef0100017dfb82")
      (field "title" (str (concat "出门单 #" (text_of c (get_default "No" (str "") pass_data)))) (
        field "textLiPrefix4" (str "门店：") (
          field "company_name" (str company_name) (
            field "textLiPrefix3" (str "车牌：") (
              field "car_no" (str car_no) (
                field "textLiPrefix1" (str "发放时间：") (
                  field "start_time" (get_default "StartTime" (str "") pass_data) (
                    field "textLiPrefix2" (str "截止时间：") (
                      field "end_time" (get_default "EndTime" (str "") pass_data) (
                        field "textLiPrefix5" (str "事由：") (
                          field "service" (str service) (
                            field "qr_image_url" (str qr_image_url) (
                              field "textLiPrefix6" (str "备注：") (
                                field "desc"
                                  (get_default "Desc" (str "") pass_data or str "请在有效期内使用")
                                  (field "static_text" (str "宝德企业集团，欢迎再次光临！") end)))))))))))))))

-- `hmac_b64 key text`: the base64 text of the HMAC-SHA1; `post` is the network
module _ {N : Type 0} (post : N → String → Fields → Fields → Result Response × N)
    (hmac_b64 : List ℕ → List ℕ → String) (conf : Settings) where
  -- `_generate_sign`
  unfoldable pub generate_sign : List (String × String) → String
  unfolding encode quote
  generate_sign params = hmac_b64 (encode conf.mys4s_secret_key) (encode (join_params params))

  abbrev pub checked_json : Result Response × N → Result Value × N
  checked_json (ok resp, n) = (json_of (raise_for_status resp), n)
  checked_json (raise e, n) = (raise e, n)

  -- `_call_mys4s_api`
  unfoldable pub call_mys4s_api : String → String → String → String → N → Result Value × N
  unfolding generate_sign
  call_mys4s_api car_no service sid desc n =
      let sign = generate_sign (sorted_params car_no service sid desc) in
      checked_json (
        post n (concat conf.mys4s_base_url "/vehicle/passcard/send")
          (field "Content-Type" (str "application/json")
            (field "Api-Key" (str conf.mys4s_api_key) end))
          (put "sign" (str sign) (pass_params car_no service sid desc)))
