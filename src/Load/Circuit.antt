-- ===== src/Load/Circuit.antt =====
-- `run_circuit` of experiments/locust/circuit_1hop.py and circuit_3hop.py, which differ only in
-- `HOPS`. The clock is in microseconds.
pub mod Phases
pub mod Reports
use torr_bsds.Base.{ℕ, ◌-◌, ◌/◌, String, ◌<>◌, Option, none, some}
use torr_bsds.Runtime.Json.{Json, null, str, obj, end, field, Exc, reschedule, index, body_length}
use torr_bsds.Runtime.Exec.{Exec, fired, pure, raise, lift, try, emit, ◌>>=◌, ◌>>◌}
use torr_bsds.Runtime.Env.{Env, monotonic, uuid4, show_num}
use torr_bsds.Client.Directory.{get_circuit, node_url}
use torr_bsds.Client.Setup.{Keys, setup_circuit}
use torr_bsds.Client.Onion.{build_onion, send_onion}
use torr_bsds.Client.Reply.{decrypt_response}

abbrev pub echo_request : String → Json
echo_request echo_server_url = obj (
    field "url" (str echo_server_url)
      (field "method" (str "GET") (field "headers" (obj end) (field "body" null end))))

-- `int((now - start) * 1000)`
abbrev pub elapsed_ms : ℕ → ℕ → ℕ
elapsed_ms start now = (now - start) / 1000

-- `events.request.fire(…)`
unfoldable pub fire : String → String → ℕ → ℕ → Option Exc → Exec (Unit {0})
fire request_type name response_time response_length exception = emit (
    fired (record {
      request_type = request_type;
      name = name;
      response_time = response_time;
      response_length = response_length;
      exception = exception;
    }))

module _ (env : Env) where
  unfoldable pub setup_phase : String → ℕ → String → String → Exec (Json × Keys)
  setup_phase name hops directory_url circuit_id = do
    t0 ← monotonic env
    made ←
        try
          (do
            circuit ← get_circuit env directory_url hops
            keys ← setup_circuit env circuit circuit_id hops
            pure (circuit, keys))
          (λ exc. do
            now ← monotonic env
            fire "circuit_setup" name (elapsed_ms t0 now) 0 (some exc)
            raise reschedule)
    now ← monotonic env
    fire "circuit_setup" name (elapsed_ms t0 now) 0 none
    pure made

  -- The exit's response and the request's time.
  unfoldable pub request_phase : String → ℕ → Json → String → Json → Keys → Exec (Json × ℕ)
  request_phase name hops exit_layer circuit_id circuit keys = do
    t1 ← monotonic env
    exit_resp ←
        try
          (do
            payload ← build_onion env keys exit_layer circuit hops
            guard ← lift (index circuit "guard")
            guard_url ← node_url env guard
            onion_resp ← send_onion env guard_url circuit_id payload
            reply ← lift (index onion_resp "payload")
            decrypt_response env keys reply hops)
          (λ exc. do
            now ← monotonic env
            fire "circuit_request" name (elapsed_ms t1 now) 0 (some exc)
            raise reschedule)
    now ← monotonic env
    pure (exit_resp, elapsed_ms t1 now)

  -- The name of both reports.
  abbrev pub hop_name : ℕ → String
  hop_name hops = show_num env hops <> "-hop"

  unfoldable pub run_circuit : ℕ → String → String → Exec (Unit {0})
  run_circuit hops directory_url echo_server_url = do
    circuit_id ← uuid4 env
    made ← setup_phase (hop_name hops) hops directory_url circuit_id
    got ← request_phase (hop_name hops) hops (echo_request echo_server_url) circuit_id made.0 made.1
    body_len ← lift (body_length got.0)
    fire "circuit_request" (hop_name hops) got.1 body_len none

  -- `CircuitOneHopUser.run_circuit` and `CircuitThreeHopUser.run_circuit`
  unfoldable pub run_one_hop : String → String → Exec (Unit {0})
  run_one_hop = run_circuit 1

  unfoldable pub run_three_hops : String → String → Exec (Unit {0})
  run_three_hops = run_circuit 3
