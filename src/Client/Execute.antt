-- ===== src/Client/Execute.antt =====
-- `_try_circuit` and `execute_circuit` of experiments/locust/circuit_client.py.
pub mod Retry
pub mod Hops
pub mod EndToEnd
use torr_bsds.Base.{ℕ, zero, suc, ◌-◌, String, ◌<>◌, Option, none, some}
use torr_bsds.Runtime.Json.{Json, Exc, runtime_error, index}
use torr_bsds.Runtime.Exec.{Exec, pure, raise, lift, try, ◌>>=◌, ◌>>◌}
use torr_bsds.Runtime.Env.{Env, monotonic, show_num}
use torr_bsds.Client.Directory.{get_circuit, node_url}
use torr_bsds.Client.Setup.{setup_circuit}
use torr_bsds.Client.Onion.{build_onion, send_onion}
use torr_bsds.Client.Reply.{decrypt_response}

abbrev pub max_circuit_attempts : ℕ
max_circuit_attempts = 3

-- The exit's response, with the two durations in microseconds.
pub record CircuitRun : Type 0 where
  pub response : Json
  pub setup_time : ℕ
  pub request_time : ℕ

module _ (env : Env) where
  unfoldable pub try_circuit : String → String → Json → ℕ → Exec CircuitRun
  try_circuit directory_url circuit_id exit_layer hops = do
    circuit ← get_circuit env directory_url hops
    t0 ← monotonic env
    keys ← setup_circuit env circuit circuit_id hops
    t1 ← monotonic env
    payload ← build_onion env keys exit_layer circuit hops
    guard ← lift (index circuit "guard")
    guard_url ← node_url env guard
    t2 ← monotonic env
    onion_resp ← send_onion env guard_url circuit_id payload
    t3 ← monotonic env
    reply ← lift (index onion_resp "payload")
    exit_resp ← decrypt_response env keys reply hops
    pure (record { response = exit_resp; setup_time = t1 - t0; request_time = t3 - t2 })

  abbrev show_last : Option Exc → String
  show_last none = "None"
  show_last (some exc) = env.show_exc exc

  -- The loop over the attempts that are left, with the exception of the one before.
  unfoldable pub attempts : ℕ → Option Exc → Exec CircuitRun → Exec CircuitRun
  attempts zero last_err attempt = raise (
      runtime_error (
        "all "
        <> show_num env max_circuit_attempts
        <> " circuit attempts failed: "
        <> show_last last_err))
  attempts (suc n) last_err attempt = try attempt (λ exc. attempts n (some exc) attempt)

  unfoldable pub execute_circuit : String → String → Json → ℕ → Exec CircuitRun
  execute_circuit directory_url circuit_id exit_layer hops =
      attempts max_circuit_attempts none (try_circuit directory_url circuit_id exit_layer hops)
