-- ===== src/Robot/Signature/Acceptance.antt =====
-- That `verify_sign` accepts what `calc_sign` makes.
use open_yzj.Prelude.{
  Bool-cases, List, String, eq_refl, inl, inr, ok, refl, some, true, ℕ, ◌==◌, ◌≡◌,
}
use open_yzj.Bytes.{is_ascii}
use open_yzj.Robot.Message.{Payload}
use open_yzj.Robot.Signature.{Algo, calc_sign, normalize, sha1, sha256, verify_sign}

module _ (hmac_b64 : Algo → List ℕ → List ℕ → String) (secret : String) (p : Payload) where
  -- base64 is ASCII
  abbrev pub IsAscii : Type 0
  IsAscii = (algo : Algo) → is_ascii (normalize (calc_sign hmac_b64 secret p algo)) ≡ true

  -- A signature by either algorithm is accepted, when the signatures are ASCII texts.
  pub verify_sign-calc_sign :
      (algo : Algo)
      → IsAscii
      → (found : Algo) × (verify_sign hmac_b64 secret p (calc_sign hmac_b64 secret p algo)
          ≡ ok (some found))
  unfolding verify_sign
  verify_sign-calc_sign sha256 ascii = (sha256, rw (ascii sha256, eq_refl _) refl)
  verify_sign-calc_sign sha1 ascii =
      let a = normalize (calc_sign hmac_b64 secret p sha256) in
      let b = normalize (calc_sign hmac_b64 secret p sha1) in
      elim (Bool-cases (a == b)) [
        | inl same ↦ (sha256, rw (ascii sha256, ascii sha1, same) refl)
        | inr other ↦ (sha1, rw (ascii sha256, ascii sha1, other, eq_refl b) refl)
      ]
