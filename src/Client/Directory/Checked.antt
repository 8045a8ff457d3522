-- ===== src/Client/Directory/Checked.antt =====
-- Exactly which replies of the directory `get_circuit` accepts.
use torr_bsds.Base.{ℕ, String, ◌<>◌, ◌≡◌, refl, ◌⊎◌, ◌↔◌, Bool, true, false, ◌∷◌, arith}
use torr_bsds.Base.{◌==◌, if◌then◌else◌, Option-cases, Bool-cases, ◌∙◌, inl, inr}
use torr_bsds.Runtime.Json.{
  Json, num, obj, end, field, ok, err, index, get_or, truthy, lookup, attribute_error, null,
}
use torr_bsds.Runtime.Exec.{Exec, Trace, Request, get, sent, pure, lift, >>=-ok, Outcome-cases}
use torr_bsds.Runtime.Env.{Env, Response, send}
use torr_bsds.Client.Directory.{get_circuit, check_circuit, has_node_id, has_relay_and_exit}

-- The circuit names a node for the role, by an ID that is not empty.
pub record HasNode (circuit : Json) (role : String) : Type 0 where
  pub node : Json
  pub id : Json
  pub at_role : index circuit role ≡ ok node
  pub at_id : index node "nodeId" ≡ ok id
  pub named : truthy id ≡ true

-- What a circuit of so many hops needs.
pub record IsUsable (circuit : Json) (hops : ℕ) : Type 0 where
  pub guard : HasNode circuit "guard"
  pub relay : hops ≡ 3 → HasNode circuit "relay"
  pub exit : hops ≡ 3 → HasNode circuit "exit"

-- A key that is there, a default, or a value that is no dict.
get_or-cases :
    (v : Json) (k : String) (d : Json)
    → ((a : Json) × (index v k ≡ ok a) × (get_or v k d ≡ ok a))
      ⊎ ((get_or v k d ≡ ok d) ⊎ (get_or v k d ≡ err attribute_error))
unfolding get_or index
get_or-cases (obj fs) k d = elim (Option-cases (lookup k fs)) [
  | inl gone ↦ inr (inl (ground arith))
  | inr (a, found) ↦ inl (a, ground arith, ground arith)
]
get_or-cases v k d = inr (inr refl)

has_node_id-true :
    (circuit : Json) (role : String) (t : Trace) {u : Trace}
    → has_node_id circuit role t ≡ (ok true, u)
    → HasNode circuit role × (u ≡ t)
unfolding has_node_id get_or truthy
has_node_id-true circuit role t h = elim (get_or-cases circuit role (obj end)) [
  | inl (node, at, found) ↦ elim (get_or-cases node "nodeId" null) [
    | inl (id, at_id, found_id) ↦ (
      record { node = node; id = id; at_role = at; at_id = at_id; named = ground arith },
      ground arith,
    )
    | inr other ↦ absurd (ground arith)
  ]
  | inr other ↦ absurd (ground arith)
]

pub get_or_of_index : (v : Json) (k : String) (d a : Json) → index v k ≡ ok a → get_or v k d ≡ ok a
unfolding get_or index
get_or_of_index (obj fs) k d a h = elim (Option-cases (lookup k fs)) [
  | inl gone ↦ absurd (ground arith)
  | inr (b, found) ↦ ground arith
]
get_or_of_index v k d a h = cc

has_node_id_of_HasNode :
    (circuit : Json) (role : String) (t : Trace)
    → HasNode circuit role
    → has_node_id circuit role t ≡ (ok true, t)
unfolding has_node_id
has_node_id_of_HasNode circuit role t n = rw (
  get_or_of_index circuit role (obj end) n.node n.at_role,
  get_or_of_index n.node "nodeId" null n.id n.at_id,
  n.named,
)

has_relay_and_exit-true :
    (circuit : Json) (t : Trace) {u : Trace}
    → has_relay_and_exit circuit t ≡ (ok true, u)
    → HasNode circuit "relay" × HasNode circuit "exit" × (u ≡ t)
unfolding has_relay_and_exit
has_relay_and_exit-true circuit t h = elim (Outcome-cases (has_node_id circuit "relay" t)) [
  | inl (true, v, first) ↦
      let (relay, same) = has_node_id-true circuit "relay" t first in
      let (exit, same') = has_node_id-true circuit "exit" v (ground arith) in
      (relay, exit, same' ∙ same)
  | inl (false, v, first) ↦ absurd (ground arith)
  | inr failed ↦ absurd (ground arith)
]

-- The test of the relay and the exit, which only circuits of three hops pass through.
check_complete : Json → ℕ → Exec Bool
check_complete circuit hops = if hops == 3 then has_relay_and_exit circuit else pure true

check_complete-true :
    (circuit : Json) (hops : ℕ) (t : Trace) {u : Trace}
    → check_complete circuit hops t ≡ (ok true, u)
    → (hops ≡ 3 → HasNode circuit "relay" × HasNode circuit "exit") × (u ≡ t)
unfolding check_complete
check_complete-true circuit hops t h = elim (Bool-cases (hops == 3)) [
  | inl three ↦
      let (relay, exit, same) = has_relay_and_exit-true circuit t (rw three at h) in
      (λ _. (relay, exit), same)
  | inr other ↦ (λ e. absurd (ground arith), ground arith)
]

check_circuit-ok :
    (circuit : Json) (hops : ℕ) (t : Trace) {c : Json} {u : Trace}
    → check_circuit circuit hops t ≡ (ok c, u)
    → IsUsable circuit hops × (c ≡ circuit) × (u ≡ t)
unfolding check_circuit check_complete
check_circuit-ok circuit hops t {c} {u} h = elim (Outcome-cases (has_node_id circuit "guard" t)) [
  | inl (true, v, first) ↦ elim (Outcome-cases (check_complete circuit hops v)) [
    | inl (true, w, second) ↦
        let (guard, same) = has_node_id-true circuit "guard" t first in
        let (rest, same') = check_complete-true circuit hops v second in
        (
          record { guard = guard; relay = λ e. (rest e).0; exit = λ e. (rest e).1 },
          ground arith,
          ground arith,
        )
    | inl (false, w, second) ↦ absurd (ground arith)
    | inr failed ↦ absurd (ground arith)
  ]
  | inl (false, v, first) ↦ absurd (ground arith)
  | inr failed ↦ absurd (ground arith)
]

check_circuit_of_IsUsable :
    (circuit : Json) (hops : ℕ) (t : Trace)
    → IsUsable circuit hops
    → check_circuit circuit hops t ≡ (ok circuit, t)
unfolding check_circuit has_relay_and_exit
check_circuit_of_IsUsable circuit hops t u = elim (Bool-cases (hops == 3)) [
  | inl three ↦ ground (
    arith,
    has_node_id_of_HasNode circuit "guard" t u.guard,
    has_node_id_of_HasNode circuit "relay" t (u.relay (ground arith)),
    has_node_id_of_HasNode circuit "exit" t (u.exit (ground arith)),
  )
  | inr other ↦ ground (arith, has_node_id_of_HasNode circuit "guard" t u.guard)
]

module _ (env : Env) where
  abbrev pub circuit_request : String → ℕ → Request
  circuit_request url hops = get (url <> "/circuit") (obj (field "hops" (num hops) end)) 10

  -- `get_circuit` returns a circuit exactly if the directory answers its one request without an
  -- HTTP error, by a JSON value that names a guard and, for three hops, a relay and an exit; it
  -- returns that value, and the request is all that it does.
  pub get_circuit_iff :
      (url : String) (hops : ℕ) (t : Trace) (circuit : Json) (u : Trace)
      → (get_circuit env url hops t ≡ (ok circuit, u)) ↔ (
          (resp : Response) × (env.http t (circuit_request url hops) ≡ ok resp)
          × (env.raise_for_status resp ≡ ok tt)
          × (resp.json ≡ ok circuit)
          × IsUsable circuit hops
          × (u ≡ sent (circuit_request url hops) ∷ t))
  unfolding get_circuit send
  get_circuit_iff url hops t circuit u = (sound, complete)
    where
      sound :
          get_circuit env url hops t ≡ (ok circuit, u)
          → (resp : Response) × (env.http t (circuit_request url hops) ≡ ok resp)
            × (env.raise_for_status resp ≡ ok tt)
            × (resp.json ≡ ok circuit)
            × IsUsable circuit hops
            × (u ≡ sent (circuit_request url hops) ∷ t)
      sound h =
          let (resp, v, answered, h₁) = >>=-ok (send env (circuit_request url hops)) _ t h in
          let (_, w, fine, h₂) = >>=-ok (lift (env.raise_for_status resp)) _ v h₁ in
          let (c, x, parsed, h₃) = >>=-ok (lift resp.json) _ w h₂ in
          let (usable, same, after) = check_circuit-ok c hops x h₃ in
          (resp, ground arith, ground arith, ground arith, rw same usable, ground arith)

      complete :
          (resp : Response) × (env.http t (circuit_request url hops) ≡ ok resp)
            × (env.raise_for_status resp ≡ ok tt)
            × (resp.json ≡ ok circuit)
            × IsUsable circuit hops
            × (u ≡ sent (circuit_request url hops) ∷ t)
          → get_circuit env url hops t ≡ (ok circuit, u)
      complete (resp, answered, fine, parsed, usable, after) =
          rw (answered, fine, parsed, check_circuit_of_IsUsable circuit hops, after)
