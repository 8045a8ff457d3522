-- ===== src/Load/Throughput.antt =====
-- `ThroughputScalingUser` of experiments/locust/throughput_scaling.py: the three-hop test, which
-- also reads the ID of the relay that it used, for its log.
use torr_bsds.Base.{ℕ, String, ◌≡◌, refl, ap, none, ◌∷◌, inl, inr}
use torr_bsds.Runtime.Json.{Json, str, obj, end, ok, get_or, body_length}
use torr_bsds.Runtime.Exec.{Exec, Trace, made_uuid, lift, Result-cases, ◌>>=◌, ◌>>◌}
use torr_bsds.Runtime.Env.{Env, uuid4}
use torr_bsds.Runtime.Quiet.{reports}
use torr_bsds.Client.Directory.Checked.{HasNode, get_or_of_index}
use torr_bsds.Load.Circuit.{echo_request, fire, setup_phase, request_phase}
use torr_bsds.Load.Circuit.Phases.{setup_report, request_report}
use torr_bsds.Load.Circuit.Reports.{Asked, Reported, answered, unmeasured, phases-Reported}

-- `circuit.get("relay", {}).get("nodeId", "unknown")`
unfoldable pub relay_id_of : Json → Exec Json
relay_id_of circuit = do
  relay ← lift (get_or circuit "relay" (obj end))
  lift (get_or relay "nodeId" (str "unknown"))

relay_id_of-HasNode :
    (circuit : Json) (t : Trace) (relay : HasNode circuit "relay")
    → relay_id_of circuit t ≡ (ok relay.id, t)
unfolding relay_id_of
relay_id_of-HasNode circuit t relay =
    rw
      (
        get_or_of_index circuit "relay" (obj end) relay.node relay.at_role,
        get_or_of_index relay.node "nodeId" (str "unknown") relay.id relay.at_id,
      )
      refl

module _ (env : Env) where
  unfoldable pub run_scaling_circuit : String → String → Exec (Unit {0})
  run_scaling_circuit directory_url echo_server_url = do
    circuit_id ← uuid4 env
    made ← setup_phase env "3-hop" 3 directory_url circuit_id
    got ← request_phase env "3-hop" 3 (echo_request echo_server_url) circuit_id made.0 made.1
    body_len ← lift (body_length got.0)
    relay_id_of made.0
    fire "circuit_request" "3-hop" got.1 body_len none

  -- `last_report` with the relay's ID read in between.
  audited_report :
      (url id : String) (exit_layer : Json) (t : Trace) (ms ms' : ℕ) (answer circuit : Json)
      (u : Trace)
      → HasNode circuit "relay"
      → Asked env "3-hop" 3 url id exit_layer t (ok answer) ms ms'
      → reports u ≡ setup_report "3-hop" ms none ∷ reports t
      → Reported env "3-hop" 3 url id exit_layer t (
          (lift (body_length answer) >>= λ bytes.
          relay_id_of circuit >> fire "circuit_request" "3-hop" ms' bytes none)
            u)
  unfolding fire reports
  audited_report url id exit_layer t ms ms' answer circuit u relay asked e =
      elim (Result-cases (body_length answer)) [
        | inl (n, h) ↦
            rw (h, relay_id_of-HasNode circuit u relay)
              (
                _,
                answered ms ms' n answer asked h,
                ap (λ l. request_report "3-hop" ms' n none ∷ l) e,
              )
        | inr (x, h) ↦ rw h (_, unmeasured ms ms' answer x asked h, e)
      ]

  -- The throughput test reports as the other circuit tests do: reading the relay's ID for the log
  -- raises nothing, since the directory's reply was checked to have one.
  pub run_scaling_circuit-reports :
      (url echo : String) (t : Trace)
      → Reported env "3-hop" 3 url
          (env.uuid t)
          (echo_request echo)
          (made_uuid ∷ t)
          (run_scaling_circuit url echo t)
  unfolding run_scaling_circuit uuid4
  run_scaling_circuit-reports url echo t =
      phases-Reported env "3-hop" 3 url (env.uuid t) (echo_request echo) (made_uuid ∷ t) _
        λ made got ms u usable asked e.
          audited_report url (env.uuid t) (echo_request echo) (made_uuid ∷ t) ms got.1 got.0 made.0
            u (usable.relay refl) asked e
