-- ===== src/Client/Aes/Roundtrip.antt =====
-- Decryption undoes encryption.
use torr_bsds.Base.{◌≡◌, ◌∙◌, some, ◌∷◌, ◌++◌, length, arith, length-append}
use torr_bsds.Base.{take-append, drop-append, inl, inr}
use torr_bsds.Runtime.Json.{ok}
use torr_bsds.Runtime.Exec.{Trace, drew, Result-cases}
use torr_bsds.Runtime.Env.{Bytes, Env, IsLawful}
use torr_bsds.Client.Aes.{aes_encrypt, aes_decrypt, nonce_size}

module _ (env : Env) (law : IsLawful env) where
  open law use {length-random_bytes, gcm_total, gcm_decrypt-encrypt}

  -- The nonce stands in front, so decryption splits the text where encryption joined it.
  aes_decrypt-append :
      (key nonce ct : Bytes)
      → length nonce ≡ nonce_size
      → aes_decrypt env (some key) (nonce ++ ct) ≡ env.gcm_decrypt key nonce ct
  unfolding aes_decrypt
  aes_decrypt-append key nonce ct h =
      rw (take-append 12 nonce ct h, drop-append 12 nonce ct h)
        (ground (arith, length-append nonce ct))

  pub aes_encrypt_total :
      (key plain : Bytes) (t : Trace)
      → length key ≡ 32
      → (ct : Bytes) × (aes_encrypt env (some key) plain t ≡ (ok ct, drew 12 ∷ t))
        × (aes_decrypt env (some key) ct ≡ ok plain)
  unfolding aes_encrypt
  aes_encrypt_total key plain t h =
      let nonce = env.random_bytes t 12 in
      let (ct, e) = gcm_total key nonce plain h (length-random_bytes t 12) in
      (
        nonce ++ ct,
        rw e,
        aes_decrypt-append key nonce ct (length-random_bytes t 12)
            ∙ gcm_decrypt-encrypt key nonce plain ct e,
      )

  -- Over lawful packages, what `aes_encrypt` returned, `aes_decrypt` decrypts to the plain
  -- text with the same key.
  pub aes_decrypt-encrypt :
      (key plain : Bytes) (t : Trace) {ct : Bytes} {t' : Trace}
      → aes_encrypt env (some key) plain t ≡ (ok ct, t')
      → aes_decrypt env (some key) ct ≡ ok plain
  unfolding aes_encrypt
  aes_decrypt-encrypt key plain t p =
      let nonce = env.random_bytes t 12 in
      elim (Result-cases (env.gcm_encrypt key nonce plain)) [
        | inl (c, e) ↦ ground (
          arith,
          aes_decrypt-append key nonce c (length-random_bytes t 12),
          gcm_decrypt-encrypt key nonce plain c e,
        )
        | inr (x, e) ↦ ground arith
      ]
