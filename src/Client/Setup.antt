-- ===== src/Client/Setup.antt =====
-- `_send_setup_key` and `setup_circuit` of experiments/locust/circuit_client.py.
pub mod Delivery
pub mod Outcome
use torr_bsds.Base.{ℕ, zero, suc, String, String, ◌<>◌, Option, none, some, List, [], ◌∷◌, ◌==◌}
use torr_bsds.Base.{if◌then◌else◌}
use torr_bsds.Runtime.Json.{Json, str, num, obj, end, field, runtime_error, index}
use torr_bsds.Runtime.Exec.{Exec, post, pure, lift, raise_unless, ◌>>=◌, ◌>>◌}
use torr_bsds.Runtime.Env.{Bytes, Env, Response, send, urandom, show_num}
use torr_bsds.Client.Aes.{key_size, rsa_encrypt_key}
use torr_bsds.Client.Directory.{node_url}

-- `s[:n]`
unfoldable pub text_prefix : ℕ → String → String
text_prefix zero s = ""
text_prefix (suc n) String.[] = ""
text_prefix (suc n) (String.◌∷◌ c s) = String.◌∷◌ c (text_prefix n s)

pub record Keys : Type 0 where
  pub guard_key : Option Bytes
  pub relay_key : Option Bytes
  pub exit_key : Option Bytes

abbrev pub Candidate : Type 0
Candidate = Json × Option Bytes

unfoldable pub candidates : Json → ℕ → Keys → Exec (List Candidate)
candidates circuit hops keys = do
  guard ← lift (index circuit "guard")
  if hops == 3
      then (do
        relay ← lift (index circuit "relay")
        exit ← lift (index circuit "exit")
        pure ((guard, keys.guard_key) ∷ (relay, keys.relay_key) ∷ (exit, keys.exit_key) ∷ []))
      else pure ((guard, keys.guard_key) ∷ [])

module _ (env : Env) where
  unfoldable pub status_error : String → Response → String
  status_error url resp =
      "POST "
      <> url
      <> " returned "
      <> show_num env resp.status_code
      <> ": "
      <> text_prefix 200 resp.text

  unfoldable pub send_setup_key : String → String → Json → Option Bytes → Exec (Unit {0})
  send_setup_key url circuit_id public_key_pem aes_key = do
    encrypted ← rsa_encrypt_key env public_key_pem aes_key
    let body = obj (
        field "circuitId" (str circuit_id)
          (field "encryptedKey" (str (env.b64encode encrypted)) end))
    resp ← send env (post (url <> "/setup") body 10)
    raise_unless (resp.status_code == 204) (runtime_error (status_error (url <> "/setup") resp))

  -- The body of the loop over the candidates.
  unfoldable pub setup_node : String → Candidate → Exec (Unit {0})
  setup_node circuit_id (node, key) = do
    url ← node_url env node
    pem ← lift (index node "publicKey")
    send_setup_key url circuit_id pem key

  unfoldable pub setup_nodes : String → List Candidate → Exec (Unit {0})
  setup_nodes circuit_id [] = pure tt
  setup_nodes circuit_id (c ∷ cs) = setup_node circuit_id c >> setup_nodes circuit_id cs

  -- `os.urandom(32) if hops == 3 else None`
  unfoldable pub optional_key : ℕ → Exec (Option Bytes)
  optional_key hops = if hops == 3 then (do k ← urandom env key_size; pure (some k)) else pure none

  unfoldable pub fresh_keys : ℕ → Exec Keys
  fresh_keys hops = do
    guard_key ← urandom env key_size
    relay_key ← optional_key hops
    exit_key ← optional_key hops
    pure (record { guard_key = some guard_key; relay_key = relay_key; exit_key = exit_key })

  unfoldable pub setup_circuit : Json → String → ℕ → Exec Keys
  setup_circuit circuit circuit_id hops = do
    keys ← fresh_keys hops
    cs ← candidates circuit hops keys
    setup_nodes circuit_id cs
    pure keys
