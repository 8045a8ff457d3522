-- ===== src/Client/Quiet.antt =====
-- The client's operations report nothing to Locust: that is left to the load tests.
use torr_bsds.Base.{ℕ, String, Option, List, [], ◌∷◌, refl}
use torr_bsds.Runtime.Json.{Json}
use torr_bsds.Runtime.Env.{Bytes, Env}
use torr_bsds.Runtime.Quiet.{Quiet, Unseen-bind, quiet_rules}
use torr_bsds.Client.Aes.{aes_encrypt, rsa_encrypt_key}
use torr_bsds.Client.Directory.{
  has_node_id, has_relay_and_exit, check_circuit, get_circuit, address, node_url,
}
use torr_bsds.Client.Setup.{
  Keys, Candidate, candidates, send_setup_key, setup_node, setup_nodes, optional_key, fresh_keys,
  setup_circuit,
}
use torr_bsds.Client.Onion.{build_onion, send_onion}
use torr_bsds.Client.Reply.{decrypt_response}

Quiet-has_node_id : (circuit : Json) (role : String) → Quiet (has_node_id circuit role)
unfolding has_node_id
Quiet-has_node_id circuit role = search (quiet_rules) depth 12

Quiet-has_relay_and_exit : (circuit : Json) → Quiet (has_relay_and_exit circuit)
unfolding has_relay_and_exit
Quiet-has_relay_and_exit circuit = search (quiet_rules, Quiet-has_node_id) depth 12

Quiet-check_circuit : (circuit : Json) (hops : ℕ) → Quiet (check_circuit circuit hops)
unfolding check_circuit
Quiet-check_circuit circuit hops =
    search (quiet_rules, Quiet-has_node_id, Quiet-has_relay_and_exit) depth 12

module _ (env : Env) where
  pub Quiet-get_circuit : (url : String) (hops : ℕ) → Quiet (get_circuit env url hops)
  unfolding get_circuit
  Quiet-get_circuit url hops = search (quiet_rules, Quiet-check_circuit) depth 12

  Quiet-address : (node : Json) → Quiet (address env node)
  unfolding address
  Quiet-address node = search (quiet_rules) depth 12

  pub Quiet-node_url : (node : Json) → Quiet (node_url env node)
  unfolding node_url
  Quiet-node_url node = search (quiet_rules, Quiet-address) depth 12

  Quiet-aes_encrypt : (key : Option Bytes) (text : Bytes) → Quiet (aes_encrypt env key text)
  unfolding aes_encrypt
  Quiet-aes_encrypt key text = search (quiet_rules) depth 12

  Quiet-rsa_encrypt_key : (pem : Json) (key : Option Bytes) → Quiet (rsa_encrypt_key env pem key)
  unfolding rsa_encrypt_key
  Quiet-rsa_encrypt_key pem key = search (quiet_rules) depth 12

  Quiet-send_setup_key :
      (url id : String) (pem : Json) (key : Option Bytes)
      → Quiet (send_setup_key env url id pem key)
  unfolding send_setup_key
  Quiet-send_setup_key url id pem key = search (quiet_rules, Quiet-rsa_encrypt_key) depth 12

  Quiet-setup_node : (id : String) (c : Candidate) → Quiet (setup_node env id c)
  unfolding setup_node
  Quiet-setup_node id c = search (quiet_rules, Quiet-node_url, Quiet-send_setup_key) depth 12

  Quiet-setup_nodes : (id : String) (cs : List Candidate) → Quiet (setup_nodes env id cs)
  unfolding setup_nodes
  Quiet-setup_nodes id [] = λ t. refl
  Quiet-setup_nodes id (c ∷ cs) =
      Unseen-bind _ _ (Quiet-setup_node id c) λ _. Quiet-setup_nodes id cs

  Quiet-candidates :
      (circuit : Json) (hops : ℕ) (keys : Keys) → Quiet (candidates circuit hops keys)
  unfolding candidates
  Quiet-candidates circuit hops keys = search (quiet_rules) depth 12

  Quiet-optional_key : (hops : ℕ) → Quiet (optional_key env hops)
  unfolding optional_key
  Quiet-optional_key hops = search (quiet_rules) depth 12

  Quiet-fresh_keys : (hops : ℕ) → Quiet (fresh_keys env hops)
  unfolding fresh_keys
  Quiet-fresh_keys hops = search (quiet_rules, Quiet-optional_key) depth 12

  pub Quiet-setup_circuit :
      (circuit : Json) (id : String) (hops : ℕ) → Quiet (setup_circuit env circuit id hops)
  unfolding setup_circuit
  Quiet-setup_circuit circuit id hops =
      search (quiet_rules, Quiet-fresh_keys, Quiet-candidates, Quiet-setup_nodes) depth 12

  pub Quiet-build_onion :
      (keys : Keys) (exit_layer circuit : Json) (hops : ℕ)
      → Quiet (build_onion env keys exit_layer circuit hops)
  unfolding build_onion
  Quiet-build_onion keys exit_layer circuit hops =
      search (quiet_rules, Quiet-address, Quiet-aes_encrypt) depth 24

  pub Quiet-send_onion : (url id : String) (payload : Bytes) → Quiet (send_onion env url id payload)
  unfolding send_onion
  Quiet-send_onion url id payload = search (quiet_rules) depth 12

  pub Quiet-decrypt_response :
      (keys : Keys) (text : Json) (hops : ℕ) → Quiet (decrypt_response env keys text hops)
  unfolding decrypt_response
  Quiet-decrypt_response keys text hops = search (quiet_rules) depth 16

pub ruleset quiet_client_rules = (
  Quiet-get_circuit, Quiet-node_url, Quiet-setup_circuit, Quiet-build_onion, Quiet-send_onion,
  Quiet-decrypt_response,
)
