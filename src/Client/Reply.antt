-- ===== src/Client/Reply.antt =====
-- `decrypt_response` of experiments/locust/circuit_client.py.
pub mod Unwrap
use torr_bsds.Base.{ℕ, ◌==◌, if◌then◌else◌}
use torr_bsds.Runtime.Json.{Json, type_error, as_str}
use torr_bsds.Runtime.Exec.{Exec, lift, ◌>>=◌}
use torr_bsds.Runtime.Env.{Env}
use torr_bsds.Client.Aes.{aes_decrypt}
use torr_bsds.Client.Setup.{Keys}

module _ (env : Env) where
  unfoldable pub decrypt_response : Keys → Json → ℕ → Exec Json
  decrypt_response keys payload_b64 hops = do
    text ← lift (as_str payload_b64 type_error)
    bytes ← lift (env.b64decode text)
    if hops == 1
        then (do plain ← lift (aes_decrypt env keys.guard_key bytes); lift (env.loads plain))
        else (do
          relay_encrypted ← lift (aes_decrypt env keys.guard_key bytes)
          exit_encrypted ← lift (aes_decrypt env keys.relay_key relay_encrypted)
          exit_json ← lift (aes_decrypt env keys.exit_key exit_encrypted)
          lift (env.loads exit_json))
