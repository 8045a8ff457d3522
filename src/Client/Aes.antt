-- ===== src/Client/Aes.antt =====
-- The AES-256-GCM and RSA helpers of experiments/locust/circuit_client.py. A key may be `None`.
pub mod Roundtrip
use torr_bsds.Base.{ℕ, Option, none, some, ◌++◌, length, take, drop, ltb, if◌then◌else◌}
use torr_bsds.Runtime.Json.{Json, Result, ok, err, value_error, type_error, attribute_error, as_str}
use torr_bsds.Runtime.Exec.{Exec, pure, lift, ◌>>=◌, ◌>>◌}
use torr_bsds.Runtime.Env.{Bytes, Env, urandom}

abbrev pub nonce_size : ℕ
nonce_size = 12

abbrev pub key_size : ℕ
key_size = 32

-- A call of the package with `None` where it wants bytes.
abbrev pub require : Option Bytes → Result Bytes
require none = err type_error
require (some k) = ok k

module _ (env : Env) where
  unfoldable pub aes_encrypt : Option Bytes → Bytes → Exec Bytes
  unfolding urandom
  aes_encrypt key plaintext = do
    nonce ← urandom env nonce_size
    k ← lift (require key)
    ct ← lift (env.gcm_encrypt k nonce plaintext)
    pure (nonce ++ ct)

  unfoldable pub aes_decrypt : Option Bytes → Bytes → Result Bytes
  aes_decrypt key text =
      if ltb (length text) nonce_size then err (value_error "ciphertext too short") else elim key [
        | none ↦ err type_error
        | some k ↦ env.gcm_decrypt k (take nonce_size text) (drop nonce_size text)
      ]

  unfoldable pub rsa_encrypt_key : Json → Option Bytes → Exec Bytes
  rsa_encrypt_key public_key_pem aes_key = do
    pem ← lift (as_str public_key_pem attribute_error)
    pub_key ← lift (env.load_pem_public_key pem)
    key ← lift (require aes_key)
    lift (env.oaep_encrypt pub_key key)
