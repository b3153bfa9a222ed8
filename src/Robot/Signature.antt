-- ===== src/Robot/Signature.antt =====
-- server/app/core/security.py: the signature of a webhook request.
pub mod Soundness
pub mod Acceptance
use open_yzj.Value.Methods.{integer_text}
use open_yzj.Prelude.{
  List, Option, Result, String, [], code, concat, if◌then◌else◌, none, ok, rstrip, some, ℕ, ◌=?◌,
  ◌>>=◌, ◌∷◌,
}
use open_yzj.Bytes.{compare_digest, encode}
use open_yzj.Robot.Message.{Payload}

-- `ALGOS`
pub data Algo : Type 0 where
  sha256 sha1 : Algo

abbrev pub algo_name : Algo → String
algo_name sha256 = "sha256"
algo_name sha1 = "sha1"

-- `",".join(parts)`
abbrev pub join_commas : List String → String
join_commas [] = ""
join_commas (s ∷ []) = s
join_commas (s ∷ t ∷ more) = concat s (concat "," (join_commas (t ∷ more)))

-- `summary`, of the fields of a payload in the order of the call in the webhook
unfoldable pub summary : Payload → String
summary p = join_commas (
    p.robot_id
    ∷ p.robot_name
    ∷ p.operator_openid
    ∷ p.operator_name
    ∷ integer_text p.time
    ∷ p.msg_id
    ∷ p.content
    ∷ [])

-- `_normalize`
unfoldable pub normalize : String → String
normalize s = rstrip (λ c. code c =? b'=') s

-- `hmac_b64 algo key text`: the base64 text of the HMAC
module _ (hmac_b64 : Algo → List ℕ → List ℕ → String) where
  -- `calc_sign`
  unfoldable pub calc_sign : String → Payload → Algo → String
  unfolding summary
  calc_sign secret p algo = hmac_b64 algo (encode secret) (encode (summary p))

  try_algos : List Algo → String → Payload → String → Result (Option Algo)
  unfolding calc_sign
  try_algos [] secret p expected = ok none
  try_algos (algo ∷ more) secret p expected =
      let rest = try_algos more secret p expected in
      (do
        same ← compare_digest (normalize (calc_sign secret p algo)) expected
        if same then ok (some algo) else rest)

  -- `verify_sign`: the algorithm that the header is a signature by
  unfoldable pub verify_sign : String → Payload → String → Result (Option Algo)
  unfolding try_algos normalize
  verify_sign secret p sign_header = try_algos (sha256 ∷ sha1 ∷ []) secret p (normalize sign_header)
