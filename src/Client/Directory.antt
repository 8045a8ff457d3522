-- ===== src/Client/Directory.antt =====
-- `get_circuit` and `_node_url` of experiments/locust/circuit_client.py.
pub mod Checked
use torr_bsds.Base.{ℕ, String, ◌<>◌, Bool, true, false, ◌==◌, if◌then◌else◌}
use torr_bsds.Runtime.Json.{Json, null, num, obj, end, field, value_error, index, get_or, truthy}
use torr_bsds.Runtime.Exec.{Exec, get, pure, lift, raise, raise_unless, ◌>>=◌, ◌>>◌}
use torr_bsds.Runtime.Env.{Env, send}

-- `circuit.get(role, {}).get("nodeId")`, as a truth value
unfoldable pub has_node_id : Json → String → Exec Bool
has_node_id circuit role = do
  node ← lift (get_or circuit role (obj end))
  id ← lift (get_or node "nodeId" null)
  pure (truthy id)

-- The second operand of `or` is read only if the relay is there.
unfoldable pub has_relay_and_exit : Json → Exec Bool
has_relay_and_exit circuit = do
  relay ← has_node_id circuit "relay"
  if relay then has_node_id circuit "exit" else pure false

unfoldable pub check_circuit : Json → ℕ → Exec Json
check_circuit circuit hops = do
  guard ← has_node_id circuit "guard"
  raise_unless guard (value_error "directory returned circuit with missing guard")
  complete ← if hops == 3 then has_relay_and_exit circuit else pure true
  raise_unless complete (value_error "directory returned incomplete 3-hop circuit")
  pure circuit

module _ (env : Env) where
  unfoldable pub get_circuit : String → ℕ → Exec Json
  get_circuit directory_url hops = do
    resp ← send env (get (directory_url <> "/circuit") (obj (field "hops" (num hops) end)) 10)
    lift (env.raise_for_status resp)
    circuit ← lift resp.json
    check_circuit circuit hops

  -- `f"{node['host']}:{node['port']}"`
  unfoldable pub address : Json → Exec String
  address node = do
    host ← lift (index node "host")
    port ← lift (index node "port")
    pure (env.show host <> ":" <> env.show port)

  unfoldable pub node_url : Json → Exec String
  node_url node = do addr ← address node; pure ("http://" <> addr)
