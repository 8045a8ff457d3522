-- ===== src/Load/Circuit/Phases.antt =====
-- What the two phases of a circuit test do inside their `try`, and the reports of a test.
use torr_bsds.Base.{ℕ, String, Option, ◌≡◌}
use torr_bsds.Runtime.Json.{Json, Exc, ok, index}
use torr_bsds.Runtime.Exec.{Exec, Trace, Report, pure, lift, ◌>>=◌}
use torr_bsds.Runtime.Env.{Env}
use torr_bsds.Runtime.Quiet.{Quiet, quiet_rules}
use torr_bsds.Client.Quiet.{quiet_client_rules}
use torr_bsds.Client.Directory.{get_circuit, node_url}
use torr_bsds.Client.Directory.Checked.{IsUsable, get_circuit_iff}
use torr_bsds.Runtime.Returns.{bind_ok}
use torr_bsds.Client.Setup.{Keys, setup_circuit}
use torr_bsds.Client.Onion.{build_onion, send_onion}
use torr_bsds.Client.Reply.{decrypt_response}

abbrev pub setup_report : String → ℕ → Option Exc → Report
setup_report name ms exc = record {
  request_type = "circuit_setup";
  name = name;
  response_time = ms;
  response_length = 0;
  exception = exc;
}

abbrev pub request_report : String → ℕ → ℕ → Option Exc → Report
request_report name ms bytes exc = record {
  request_type = "circuit_request";
  name = name;
  response_time = ms;
  response_length = bytes;
  exception = exc;
}

module _ (env : Env) where
  -- What a test does to set its circuit up.
  unfoldable pub making : ℕ → String → String → Exec (Json × Keys)
  making hops url id = do
    circuit ← get_circuit env url hops
    keys ← setup_circuit env circuit id hops
    pure (circuit, keys)

  pub Quiet-making : (hops : ℕ) (url id : String) → Quiet (making hops url id)
  unfolding making
  Quiet-making hops url id = search (quiet_rules, quiet_client_rules) depth 12

  -- What it does for its request.
  unfoldable pub asking : ℕ → Json → String → Json → Keys → Exec Json
  asking hops exit_layer id circuit keys = do
    payload ← build_onion env keys exit_layer circuit hops
    guard ← lift (index circuit "guard")
    guard_url ← node_url env guard
    onion_resp ← send_onion env guard_url id payload
    reply ← lift (index onion_resp "payload")
    decrypt_response env keys reply hops

  pub Quiet-asking :
      (hops : ℕ) (exit_layer : Json) (id : String) (circuit : Json) (keys : Keys)
      → Quiet (asking hops exit_layer id circuit keys)
  unfolding asking
  Quiet-asking hops exit_layer id circuit keys = search (quiet_rules, quiet_client_rules) depth 16

  pub making-IsUsable :
      (hops : ℕ) (url id : String) (t : Trace) {made : Json × Keys} {u : Trace}
      → making hops url id t ≡ (ok made, u)
      → IsUsable made.0 hops
  unfolding making
  making-IsUsable hops url id t {made} h =
      bind_ok (get_circuit env url hops) _ t h λ circuit v e h₁.
        bind_ok (setup_circuit env circuit id hops) _ v h₁ λ keys w e' h₂.
          let usable = ((get_circuit_iff env url hops t circuit v).0 e).4 in
          let same : circuit ≡ made.0 = cc in rw⁻¹ same usable
