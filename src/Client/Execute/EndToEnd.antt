-- ===== src/Client/Execute/EndToEnd.antt =====
-- A whole attempt over three hops, against a network that does its part.
use torr_bsds.Base.{◌-◌, String, ◌<>◌, ◌≡◌, refl, some, ◌∷◌, arith, length}
use torr_bsds.Runtime.Json.{Json, str, obj, end, field, ok, index}
use torr_bsds.Runtime.Exec.{Trace, Request, post, drew, sent, read_clock}
use torr_bsds.Runtime.Env.{Bytes, Env, Response, IsLawful, monotonic, send}
use torr_bsds.Client.Directory.{get_circuit, node_url}
use torr_bsds.Client.Setup.{Keys, setup_circuit}
use torr_bsds.Client.Onion.{send_onion}
use torr_bsds.Client.Onion.Route.{HasAddress, address-HasAddress, IsOnion, build_onion-IsOnion}
use torr_bsds.Client.Reply.Unwrap.{IsWrapped, decrypt_response-IsWrapped}
use torr_bsds.Client.Execute.{CircuitRun, try_circuit}

abbrev pub onion_request : Env → String → String → Bytes → Request
onion_request env id addr onion =
    post (("http://" <> addr) <> "/onion")
      (obj (field "circuitId" (str id) (field "payload" (str (env.b64encode onion)) end))) 30

module _ (env : Env) (url id : String) where
  -- The directory gives a circuit whose nodes have addresses, and they take their keys. The guard
  -- answers every onion that the nodes can route, by the exit's answer wrapped by the three.
  pub record IsServed (exit_layer answer : Json) (t : Trace) : Type 0 where
    pub circuit : Json
    pub after_lookup : Trace
    pub g : Bytes
    pub r : Bytes
    pub e : Bytes
    pub after_setup : Trace
    pub guard_addr : String
    pub relay_addr : String
    pub exit_addr : String
    pub looked_up : get_circuit env url 3 t ≡ (ok circuit, after_lookup)
    pub set_up :
        setup_circuit env circuit id 3 (read_clock ∷ after_lookup)
        ≡ (ok (record { guard_key = some g; relay_key = some r; exit_key = some e }), after_setup)
    pub length-g : length g ≡ 32
    pub length-r : length r ≡ 32
    pub length-e : length e ≡ 32
    pub guard_at : HasAddress env circuit "guard" guard_addr
    pub relay_at : HasAddress env circuit "relay" relay_addr
    pub exit_at : HasAddress env circuit "exit" exit_addr
    pub serves :
        (onion : Bytes) (u : Trace)
        → IsOnion env g r e onion relay_addr exit_addr exit_layer
        → (resp : Response) × (payload : Bytes) × (env.http u
              (onion_request env id guard_addr onion)
            ≡ ok resp)
          × (resp.status_code ≡ 200)
          × (resp.json ≡ ok (obj (field "payload" (str (env.b64encode payload)) end)))
          × IsWrapped env g r e answer payload

module _ (env : Env) (law : IsLawful env) where
  node_url-HasAddress :
      (circuit : Json) (role addr : String) (t : Trace) (a : HasAddress env circuit role addr)
      → node_url env a.node t ≡ (ok ("http://" <> addr), t)
  unfolding node_url
  node_url-HasAddress circuit role addr t a = rw (address-HasAddress env law circuit role addr t a)

  send_onion-answered :
      (id addr : String) (onion : Bytes) (t : Trace) (resp : Response) (v : Json)
      → env.http t (onion_request env id addr onion) ≡ ok resp
      → resp.status_code ≡ 200
      → resp.json ≡ ok v
      → send_onion env ("http://" <> addr) id onion t
        ≡ (ok v, sent (onion_request env id addr onion) ∷ t)
  unfolding send_onion send
  send_onion-answered id addr onion t resp v answered fine parsed = ground arith

  -- Over lawful packages, an attempt over three hops returns what the exit answered, if the
  -- directory and the nodes do their part: the circuit has addresses, its nodes take their
  -- keys, and the guard answers every onion that the nodes can route by the wrapped answer.
  pub try_circuit-IsServed :
      (url id : String) (exit_layer answer : Json) (t : Trace)
      → IsServed env url id exit_layer answer t
      → (run : CircuitRun) × (u : Trace) × (try_circuit env url id exit_layer 3 t ≡ (ok run, u))
        × (run.response ≡ answer)
  unfolding try_circuit monotonic index
  try_circuit-IsServed url id exit_layer answer t s =
      let keys : Keys = record {
        guard_key = some s.g;
        relay_key = some s.r;
        exit_key = some s.e;
      } in
      let t₂ = read_clock ∷ s.after_setup in
      let (onion, built, routes) =
        build_onion-IsOnion env law s.g s.r s.e keys exit_layer s.circuit s.relay_addr s.exit_addr
          t₂ refl s.length-g s.length-r s.length-e s.relay_at s.exit_at in
      let t₃ = drew 12 ∷ drew 12 ∷ drew 12 ∷ t₂ in
      let t₄ = read_clock ∷ t₃ in
      let (resp, payload, answered, fine, parsed, wrapped) = s.serves onion t₄ routes in
      let t₅ = read_clock ∷ sent (onion_request env id s.guard_addr onion) ∷ t₄ in
      (
        record {
          response = answer;
          setup_time = env.clock s.after_setup - env.clock s.after_lookup;
          request_time =
              env.clock (sent (onion_request env id s.guard_addr onion) ∷ t₄) - env.clock t₃;
        },
        t₅,
        rw (
          s.looked_up,
          s.set_up,
          built,
          s.guard_at.at_role,
          node_url-HasAddress s.circuit "guard" s.guard_addr t₃ s.guard_at,
          send_onion-answered id s.guard_addr onion t₄ resp _ answered fine parsed,
          decrypt_response-IsWrapped env law s.g s.r s.e keys answer payload 3 t₅ (omega arith) refl
              wrapped,
        ),
        refl,
      )
