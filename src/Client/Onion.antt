-- ===== src/Client/Onion.antt =====
-- `build_onion` and `send_onion` of experiments/locust/circuit_client.py.
pub mod Route
use torr_bsds.Base.{ℕ, String, ◌<>◌, ◌==◌, if◌then◌else◌}
use torr_bsds.Runtime.Json.{Json, str, obj, end, field, runtime_error, index}
use torr_bsds.Runtime.Exec.{Exec, post, pure, lift, raise_unless, ◌>>=◌, ◌>>◌}
use torr_bsds.Runtime.Env.{Bytes, Env, send}
use torr_bsds.Client.Aes.{aes_encrypt}
use torr_bsds.Client.Directory.{address}
use torr_bsds.Client.Setup.{Keys, status_error}

module _ (env : Env) where
  -- `{"nextHop": addr, "payload": base64(ct)}`
  abbrev pub layer : String → Bytes → Json
  layer next_hop ct =
      obj (field "nextHop" (str next_hop) (field "payload" (str (env.b64encode ct)) end))

  unfoldable pub build_onion : Keys → Json → Json → ℕ → Exec Bytes
  build_onion keys exit_layer circuit hops =
      if hops == 1 then aes_encrypt env keys.guard_key (env.dumps exit_layer) else (do
        exit_ct ← aes_encrypt env keys.exit_key (env.dumps exit_layer)
        relay_node ← lift (index circuit "relay")
        exit_node ← lift (index circuit "exit")
        exit_addr ← address env exit_node
        relay_addr ← address env relay_node
        relay_ct ← aes_encrypt env keys.relay_key (env.dumps (layer exit_addr exit_ct))
        aes_encrypt env keys.guard_key (env.dumps (layer relay_addr relay_ct)))

  unfoldable pub send_onion : String → String → Bytes → Exec Json
  send_onion guard_url circuit_id payload = do
    let body =
        obj (field "circuitId" (str circuit_id) (field "payload" (str (env.b64encode payload)) end))
    resp ← send env (post (guard_url <> "/onion") body 30)
    raise_unless (resp.status_code == 200)
        (runtime_error (status_error env (guard_url <> "/onion") resp))
    lift resp.json
