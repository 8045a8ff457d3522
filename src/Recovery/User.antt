-- ===== src/Recovery/User.antt =====
-- `FailureRecoveryUser` of experiments/experiment3/locustfile.py. Durations are in microseconds.
pub mod Invariant
pub mod Soundness
pub mod Logging
pub mod Rows
pub mod Watching
use torr_bsds.Base.{
  ℕ, ◌+◌, ◌-◌, String, ◌<>◌, Bool, true, false, ◌==◌, Option, none, some, List, [], ◌∷◌, ◌++◌,
}
use torr_bsds.Base.{if◌then◌else◌}
use torr_bsds.Runtime.Json.{
  Json, null, str, obj, end, field, Exc, reschedule, type_error, index, truthy, as_str, body_length,
}
use torr_bsds.Runtime.Exec.{fired, emit}
use torr_bsds.Runtime.Env.{Env, monotonic, uuid4, show_num}
use torr_bsds.Client.Directory.{get_circuit, node_url}
use torr_bsds.Client.Setup.{Keys, setup_circuit}
use torr_bsds.Client.Onion.{build_onion, send_onion}
use torr_bsds.Client.Reply.{decrypt_response}
use torr_bsds.Recovery.Checker.{HealthChecker, new_checker, set_circuit_nodes, check_needs_rebuild}
use torr_bsds.Recovery.Task.{
  User, Task, no_keys, pure, raise, lift, exec, gets, modify, try, ◌>>=◌, ◌>>◌, int_ms, log_csv_row,
}

-- The module's settings that the user reads.
pub record Config : Type 0 where
  pub directory_url : String
  pub echo_server_url : String
  pub hops : ℕ
  pub health_check : Bool

abbrev pub exit_layer : Config → Json
exit_layer c = obj (
    field "url" (str c.echo_server_url)
      (field "method" (str "GET") (field "headers" (obj end) (field "body" null end))))

-- Assignments to the user's fields.
abbrev pub discard : User → User
discard user = record user { circuit = null; keys = no_keys }

abbrev pub set_circuit : Json → User → User
set_circuit circuit user = record user { circuit = circuit }

abbrev pub set_circuit_id : String → User → User
set_circuit_id circuit_id user = record user { circuit_id = circuit_id }

abbrev pub set_keys : Keys → User → User
set_keys keys user = record user { keys = keys }

abbrev pub set_checker : Option HealthChecker → User → User
set_checker checker user = record user { health_checker = checker }

module _ (env : Env) (c : Config) where
  unfoldable pub setup : Task (Unit {0})
  setup = do
    circuit ← exec env (get_circuit env c.directory_url c.hops)
    modify (set_circuit circuit)
    circuit_id ← exec env (uuid4 env)
    modify (set_circuit_id circuit_id)
    keys ← exec env (setup_circuit env circuit circuit_id c.hops)
    modify (set_keys keys)

  -- `circuit[role]["nodeId"]`, a text
  unfoldable pub node_id : Json → String → Task String
  node_id circuit role = do
    node ← lift (index circuit role)
    id ← lift (index node "nodeId")
    lift (as_str id type_error)

  unfoldable pub circuit_node_ids : Json → Task (List String)
  circuit_node_ids circuit = do
    guard ← node_id circuit "guard"
    if c.hops == 3
        then (do
          relay ← node_id circuit "relay"
          exit ← node_id circuit "exit"
          pure (guard ∷ relay ∷ exit ∷ []))
        else pure (guard ∷ [])

  unfoldable pub update_nodes : Option HealthChecker → Json → Task (Unit {0})
  update_nodes none circuit = pure tt
  update_nodes (some hc) circuit =
      if truthy circuit
      then (do
        ids ← circuit_node_ids circuit
        modify (set_checker (some (set_circuit_nodes ids hc))))
      else pure tt

  unfoldable pub update_health_checker_nodes : Task (Unit {0})
  update_health_checker_nodes = do
    hc ← gets (λ user. user.health_checker)
    circuit ← gets (λ user. user.circuit)
    update_nodes hc circuit

  unfoldable pub on_start : Task (Unit {0})
  on_start = do
    modify discard
    circuit_id ← exec env (uuid4 env)
    modify (set_circuit_id circuit_id)
    modify (set_checker none)
    setup
    if c.health_check
        then (do modify (set_checker (some new_checker)); update_health_checker_nodes)
        else pure tt

  unfoldable pub rebuild_circuit : Task (Unit {0})
  rebuild_circuit = do modify discard; setup; update_health_checker_nodes

  -- `events.request.fire(…)`
  unfoldable pub fire : ℕ → ℕ → Option Exc → Task (Unit {0})
  fire response_time response_length exception = exec env (
      emit (
        fired (record {
          request_type = "circuit_request";
          name = show_num env c.hops <> "-hop-failure-recovery";
          response_time = response_time;
          response_length = response_length;
          exception = exception;
        })))

  unfoldable pub needs_rebuild : User → Bool
  needs_rebuild user = elim user.health_checker [ none ↦ false | some hc ↦ check_needs_rebuild hc ]

  -- The rebuild before the request: whether one was made, and how long it took.
  unfoldable pub proactive_rebuild : Task (Bool × ℕ)
  proactive_rebuild = do
    t_rebuild ← exec env (monotonic env)
    try (do rebuild_circuit; now ← exec env (monotonic env); pure (true, now - t_rebuild))
        (λ exc. do
          now ← exec env (monotonic env)
          log_csv_row env "rebuild_failed" (now - t_rebuild) true (now - t_rebuild)
          fire (int_ms (now - t_rebuild)) 0 (some exc)
          raise reschedule)

  -- The body of the `try`: one request over the current circuit.
  unfoldable pub send_over_circuit : ℕ → Bool → ℕ → Task (Unit {0})
  send_over_circuit t0 circuit_rebuilt rebuild_duration = do
    user ← gets (λ user. user)
    payload ← exec env (build_onion env user.keys (exit_layer c) user.circuit c.hops)
    guard ← lift (index user.circuit "guard")
    guard_url ← exec env (node_url env guard)
    onion_resp ← exec env (send_onion env guard_url user.circuit_id payload)
    reply ← lift (index onion_resp "payload")
    exit_resp ← exec env (decrypt_response env user.keys reply c.hops)
    now ← exec env (monotonic env)
    log_csv_row env "success" (now - t0) circuit_rebuilt rebuild_duration
    body_len ← lift (body_length exit_resp)
    fire (int_ms (now - t0)) body_len none

  -- The rebuild after a failed request.
  unfoldable pub rebuild_after_failure : ℕ → Task (Unit {0})
  rebuild_after_failure latency = do
    t_rebuild ← exec env (monotonic env)
    try
        (do
          rebuild_circuit
          now ← exec env (monotonic env)
          log_csv_row env "failed_rebuilt" (latency + (now - t_rebuild)) true (now - t_rebuild))
        (λ _. do
          now ← exec env (monotonic env)
          log_csv_row env "failed_rebuild_failed" (latency + (now - t_rebuild)) true
              (now - t_rebuild))

  unfoldable pub request_failed : ℕ → Exc → Task (Unit {0})
  request_failed t0 exc = do
    now ← exec env (monotonic env)
    rebuild_after_failure (now - t0)
    fire (int_ms (now - t0)) 0 (some exc)
    raise reschedule

  unfoldable pub send_request : Task (Unit {0})
  send_request = do
    stale ← gets needs_rebuild
    (circuit_rebuilt, rebuild_duration) ← if stale then proactive_rebuild else pure (false, 0)
    t0 ← exec env (monotonic env)
    try (send_over_circuit t0 circuit_rebuilt rebuild_duration) (request_failed t0)
