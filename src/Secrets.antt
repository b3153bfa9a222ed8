-- ===== src/Secrets.antt =====
-- proxy-server/app/crypto.py and server/app/core/crypto.py, which are the same code: secrets
-- encrypted with Fernet.
use open_yzj.Prelude.{List, Result, String, ok, ℕ, ◌>>=◌, ◌≡◌}
use open_yzj.Bytes.{encode}

-- `hashlib`, `base64` and `cryptography.fernet`: a token is a text, and the time and the random
-- bytes of an encryption are its second argument.
pub record Fernet : Type 0 where
  pub sha256 : List ℕ → List ℕ
  pub urlsafe_b64encode : List ℕ → List ℕ
  pub encrypt : List ℕ → List ℕ → List ℕ → String
  pub decrypt : List ℕ → String → Result (List ℕ)
  pub decode_utf8 : List ℕ → Result String

module _ (f : Fernet) where
  -- `_derive_fernet_key`
  unfoldable pub derive_fernet_key : String → List ℕ
  derive_fernet_key secret = f.urlsafe_b64encode (f.sha256 (encode secret))

  module _ (app_secret_key : String) where
    -- `encrypt_secret`
    unfoldable pub encrypt_secret : List ℕ → String → String
    unfolding derive_fernet_key
    encrypt_secret nonce plaintext =
        f.encrypt (derive_fernet_key app_secret_key) nonce (encode plaintext)

    -- `decrypt_secret`
    unfoldable pub decrypt_secret : String → Result String
    unfolding derive_fernet_key
    decrypt_secret ciphertext = do
      bytes ← f.decrypt (derive_fernet_key app_secret_key) ciphertext
      f.decode_utf8 bytes

    -- The libraries give a text back: its token decrypts to its UTF-8, which decodes to it.
    pub record Recovers (nonce : List ℕ) (plaintext : String) : Type 0 where
      pub decrypts :
          f.decrypt
            (derive_fernet_key app_secret_key)
            (f.encrypt (derive_fernet_key app_secret_key) nonce (encode plaintext))
          ≡ ok (encode plaintext)
      pub decodes : f.decode_utf8 (encode plaintext) ≡ ok plaintext

    pub decrypt_secret-encrypt_secret :
        (nonce : List ℕ) (plaintext : String)
        → Recovers nonce plaintext
        → decrypt_secret (encrypt_secret nonce plaintext) ≡ ok plaintext
    unfolding decrypt_secret encrypt_secret
    decrypt_secret-encrypt_secret nonce plaintext r = rw r.decrypts r.decodes
