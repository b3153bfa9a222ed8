-- ===== src/Robot/Signature/Soundness.antt =====
-- What the answer of `verify_sign` says of the header.
use open_yzj.Prelude.{
  >>=-eq-ok, Bool, Bool-cases, List, Option, Result, String, eq_iff, false, if◌then◌else◌, inl, inr,
  none, ok, ok-injective, raise-ne-ok, some, subst, sym, true, ℕ, ◌&&◌, ◌>>=◌, ◌∙◌, ◌≡◌, ◌≢◌,
}
use open_yzj.Bytes.{compare_digest, compare_digest_sound, is_ascii}
use open_yzj.Robot.Message.{Payload}
use open_yzj.Robot.Signature.{Algo, calc_sign, normalize, sha1, sha256, verify_sign}

module _ (hmac_b64 : Algo → List ℕ → List ℕ → String) (secret : String) (p : Payload)
    (sign : String) where
  -- The header is the signature by an algorithm, up to `=` at the end.
  abbrev pub IsSignature : Algo → Type 0
  IsSignature algo = normalize (calc_sign hmac_b64 secret p algo) ≡ normalize sign

  abbrev pub Means : Option Algo → Type 0
  Means none = (algo : Algo) → ¬ IsSignature algo
  Means (some algo) = IsSignature algo

  neither : ¬ IsSignature sha256 → ¬ IsSignature sha1 → Means none
  neither a b sha256 = a
  neither a b sha1 = b

  true-ne-false : true ≡ false → ⊥
  true-ne-false h = cc

  compare_digest-false : (a b : String) → compare_digest a b ≡ ok false → a ≢ b
  compare_digest-false a b h same = elim (Bool-cases (is_ascii a && is_ascii b)) [
    | inl e ↦ true-ne-false (sym ((eq_iff a b).1 same) ∙ ok-injective (rw e at h))
    | inr e ↦ raise-ne-ok (rw e at h)
  ]

  by_sha1 :
      (hit : Bool) (found : Option Algo)
      → ¬ IsSignature sha256
      → compare_digest (normalize (calc_sign hmac_b64 secret p sha1)) (normalize sign) ≡ ok hit
      → (if hit then ok (some sha1) else ok none) ≡ Result.ok found
      → Means found
  by_sha1 true found miss same h =
      subst Means (ok-injective h)
        (compare_digest_sound (normalize (calc_sign hmac_b64 secret p sha1)) (normalize sign) same)
  by_sha1 false found miss same h = subst Means (ok-injective h) (
      neither miss
        (compare_digest-false (normalize (calc_sign hmac_b64 secret p sha1)) (normalize sign) same))

  by_sha256 :
      (hit : Bool) (found : Option Algo)
      → compare_digest (normalize (calc_sign hmac_b64 secret p sha256)) (normalize sign) ≡ ok hit
      → (if hit
          then ok (some sha256)
          else compare_digest (normalize (calc_sign hmac_b64 secret p sha1)) (normalize sign)
            >>= λ same. if same then ok (some sha1) else ok none)
        ≡ ok found
      → Means found
  by_sha256 true found same h =
      subst Means (ok-injective h) (
        compare_digest_sound (normalize (calc_sign hmac_b64 secret p sha256)) (normalize sign) same)
  by_sha256 false found same h =
      let b = normalize (calc_sign hmac_b64 secret p sha1) in
      let (hit, two, h2) = >>=-eq-ok (compare_digest b (normalize sign)) _ h in
      by_sha1 hit found
        (compare_digest-false (normalize (calc_sign hmac_b64 secret p sha256)) (normalize sign)
          same)
        two h2

  -- When `verify_sign` names an algorithm, the header is the signature by it, up to `=` at the end;
  -- when it names none, the header is the signature by neither.
  pub verify_sign-Means :
      (found : Option Algo) → verify_sign hmac_b64 secret p sign ≡ ok found → Means found
  unfolding verify_sign
  verify_sign-Means found h =
      let a = normalize (calc_sign hmac_b64 secret p sha256) in
      let (first, one, h1) = >>=-eq-ok (compare_digest a (normalize sign)) _ h in
      by_sha256 first found one h1
