-- ===== src/Recovery/User/Invariant.antt =====
-- The circuit and the keys of a user belong together.
use torr_bsds.Base.{
  ℕ, String, ◌≡◌, refl, ◌≢◌, ◌⊎◌, inl, inr, true, false, Option, none, some, List, [], ◌∷◌, arith,
  ◌==◌,
}
use torr_bsds.Runtime.Json.{Json, str, ok, type_error, obj, field, index, truthy, as_str}
use torr_bsds.Runtime.Env.{Env, IsLawful, uuid4}
use torr_bsds.Client.Directory.{get_circuit}
use torr_bsds.Client.Directory.Checked.{IsUsable, get_circuit_iff}
use torr_bsds.Client.Setup.{setup_circuit}
use torr_bsds.Client.Setup.Outcome.{IsFresh, setup_circuit-IsSetUp}
use torr_bsds.Recovery.Checker.{HealthChecker, set_circuit_nodes}
use torr_bsds.Recovery.Task.{State, User, no_keys, lift, exec, gets, modify}
use torr_bsds.Recovery.Task.Triple.{
  Post, Triple, pure_triple, lift_triple, exec_triple, gets_triple, modify_triple, bind_triple,
  if_triple, weaken,
}
use torr_bsds.Recovery.User.{
  Config, discard, set_circuit, set_circuit_id, set_keys, set_checker, setup, node_id,
  circuit_node_ids, update_nodes, update_health_checker_nodes, rebuild_circuit,
}

abbrev pub IsBlank : User → Type 0
IsBlank user = user.keys ≡ no_keys

-- The circuit gives the node of the role this ID.
pub record HasId (circuit : Json) (role id : String) : Type 0 where
  pub node : Json
  pub at_role : index circuit role ≡ ok node
  pub at_id : index node "nodeId" ≡ ok (str id)

-- The IDs of the nodes of a circuit of so many hops.
pub data Names (circuit : Json) (hops : ℕ) (ids : List String) : Type 0 where
  guard_only :
      (guard : String)
      → hops ≢ 3
      → HasId circuit "guard" guard
      → ids ≡ guard ∷ []
      → Names circuit hops ids
  all_three :
      (guard relay exit : String)
      → hops ≡ 3
      → HasId circuit "guard" guard
      → HasId circuit "relay" relay
      → HasId circuit "exit" exit
      → ids ≡ guard ∷ relay ∷ exit ∷ []
      → Names circuit hops ids

-- The checker, if there is one, watches the nodes of the user's circuit and wants no rebuild yet.
abbrev pub IsWatched : ℕ → User → Type 0
IsWatched hops user =
    (user.health_checker ≡ none)
    ⊎ ((ids : List String) × Names user.circuit hops ids
        × (user.health_checker ≡ some (record { current_node_ids = ids; needs_rebuild = false })))

-- The circuit is one that the directory may give, and each of its hops has a key of its own, all
-- from the draws of one setup.
pub record IsReady (env : Env) (hops : ℕ) (user : User) : Type 0 where
  pub usable : IsUsable user.circuit hops
  pub fresh : IsFresh env hops user.keys

abbrev pub IsSound : Env → ℕ → User → Type 0
IsSound env hops user = IsBlank user ⊎ IsReady env hops user

module _ (env : Env) (law : IsLawful env) (c : Config) where
  pub setup_triple : Triple IsBlank (setup env c) (λ _ u. IsReady env c.hops u) IsBlank
  unfolding setup
  setup_triple =
      bind_triple {Q = λ circuit u. IsBlank u × IsUsable circuit c.hops}
        (exec env (get_circuit env c.directory_url c.hops)) _
        (exec_triple env _
          (λ circuit t v user polls e p.
            (p, ((get_circuit_iff env c.directory_url c.hops t circuit v).0 e).4))
          (λ u polls p. p))
        λ circuit.
          bind_triple {Q = λ _ u. IsBlank u × IsUsable u.circuit c.hops}
            (modify (set_circuit circuit)) _ (modify_triple (set_circuit circuit) (λ u p. p))
            λ _.
              bind_triple {Q = λ _ u. IsBlank u × IsUsable u.circuit c.hops} (exec env (uuid4 env))
                _ (exec_triple env _ (λ id t v user polls e p. p) (λ u polls p. p.0))
                λ id.
                  bind_triple {Q = λ _ u. IsBlank u × IsUsable u.circuit c.hops}
                    (modify (set_circuit_id id)) _ (modify_triple (set_circuit_id id) (λ u p. p))
                    λ _.
                      bind_triple
                        {Q = λ keys u. IsUsable u.circuit c.hops × IsFresh env c.hops keys}
                        (exec env (setup_circuit env circuit id c.hops)) _
                        (exec_triple env _
                          (λ keys t v user polls e p. (
                            p.1,
                            (t, (setup_circuit-IsSetUp env law circuit id c.hops t keys v e).fresh),
                          ))
                          (λ u polls p. p.0))
                        λ keys.
                          modify_triple (set_keys keys)
                            (λ u p. record { usable = p.0; fresh = p.1 })

as_text : (v : Json) (id : String) → as_str v type_error ≡ ok id → v ≡ str id
unfolding as_str
as_text (str s) id h = ground arith
as_text v id h = cc

module _ (env : Env) (c : Config) where
  node_id_triple :
      (P E : User → Type 0) (circuit : Json) (role : String)
      → ((u : User) → P u → E u)
      → Triple P (node_id env c circuit role) (λ id u. P u × HasId circuit role id) E
  unfolding node_id
  node_id_triple P E circuit role fall =
      bind_triple {Q = λ node u. P u × (index circuit role ≡ ok node)} (lift (index circuit role)) _
        (lift_triple _ (λ node u e p. (p, e)) fall)
        λ node.
          bind_triple
            {Q = λ id u. P u × (index circuit role ≡ ok node) × (index node "nodeId" ≡ ok id)}
            (lift (index node "nodeId")) _
            (lift_triple _ (λ id u e p. (p.0, p.1, e)) (λ u p. fall u p.0))
            λ id.
              lift_triple (as_str id type_error)
                (λ text u e p. (
                  p.0,
                  record { node = node; at_role = p.1; at_id = rw (← as_text id text e) p.2 },
                ))
                (λ u p. fall u p.0)

  circuit_node_ids_triple :
      (P E : User → Type 0) (circuit : Json)
      → ((u : User) → P u → E u)
      → Triple P (circuit_node_ids env c circuit) (λ ids u. P u × Names circuit c.hops ids) E
  unfolding circuit_node_ids
  circuit_node_ids_triple P E circuit fall =
      bind_triple {Q = λ guard u. P u × HasId circuit "guard" guard} (node_id env c circuit "guard")
        _ (node_id_triple P E circuit "guard" fall)
        λ guard.
          if_triple (c.hops == 3) _ _
            (λ three.
              bind_triple
                {Q = λ relay u. (P u × HasId circuit "guard" guard) × HasId circuit "relay" relay}
                (node_id env c circuit "relay") _
                (node_id_triple _ E circuit "relay" (λ u p. fall u p.0))
                λ relay.
                  bind_triple
                    {Q = λ exit u.
                      ((P u × HasId circuit "guard" guard) × HasId circuit "relay" relay)
                      × HasId circuit "exit" exit}
                    (node_id env c circuit "exit") _
                    (node_id_triple _ E circuit "exit" (λ u p. fall u p.0.0))
                    λ exit. pure_triple _ (λ u p.
                      (p.0.0.0, all_three guard relay exit (ground arith) p.0.0.1 p.0.1 p.1 refl)))
            (λ other.
              pure_triple _ (λ u p. (p.0, guard_only guard (λ e. absurd (ground arith)) p.1 refl)))

module _ (env : Env) (law : IsLawful env) (c : Config) where
  IsReadyFor : Option HealthChecker → Json → User → Type 0
  IsReadyFor hc circuit user =
      IsReady env c.hops user × (user.health_checker ≡ hc) × (user.circuit ≡ circuit)

  truthy_of_usable : (circuit : Json) → IsUsable circuit c.hops → truthy circuit ≡ true
  unfolding truthy index
  truthy_of_usable (obj (field k v fs)) u = refl
  truthy_of_usable v u = cc u.guard.at_role

  update_nodes_triple :
      (hc : Option HealthChecker) (circuit : Json)
      → Triple
          (IsReadyFor hc circuit)
          (update_nodes env c hc circuit)
          (λ _ u. IsReady env c.hops u × IsWatched c.hops u)
          (IsReady env c.hops)
  unfolding update_nodes IsReadyFor set_circuit_nodes
  update_nodes_triple none circuit = pure_triple tt (λ u p. (p.0, inl p.1))
  update_nodes_triple (some hc) circuit =
      if_triple (truthy circuit) _ _
        (λ there.
          bind_triple {Q = λ ids u. IsReadyFor (some hc) circuit u × Names circuit c.hops ids}
            (circuit_node_ids env c circuit) _
            (circuit_node_ids_triple env c (IsReadyFor (some hc) circuit) _ circuit (λ u p. p.0))
            λ ids. modify_triple (set_checker (some (set_circuit_nodes ids hc))) (λ u p. (
              record { usable = p.0.0.usable; fresh = p.0.0.fresh },
              inr (ids, rw p.0.2 p.1, refl),
            )))
        (λ empty.
          pure_triple tt
            (λ u p. absurd (cc (truthy_of_usable circuit (rw p.2 at p.0.usable), empty))))

  update_health_checker_nodes_triple :
      Triple
        (IsReady env c.hops)
        (update_health_checker_nodes env c)
        (λ _ u. IsReady env c.hops u × IsWatched c.hops u)
        (IsReady env c.hops)
  unfolding update_health_checker_nodes IsReadyFor
  update_health_checker_nodes_triple =
      bind_triple {Q = λ hc u. IsReady env c.hops u × (u.health_checker ≡ hc)}
        (gets (λ user. user.health_checker)) _ (gets_triple _ (λ u p. (p, refl)))
        λ hc.
          bind_triple {Q = IsReadyFor hc} (gets (λ user. user.circuit)) _
            (gets_triple _ (λ u p. (p.0, p.1, refl))) λ circuit. update_nodes_triple hc circuit

  pub rebuild_circuit_triple :
      Triple
        (λ u. Unit {0})
        (rebuild_circuit env c)
        (λ _ u. IsReady env c.hops u × IsWatched c.hops u)
        (IsSound env c.hops)
  unfolding rebuild_circuit
  rebuild_circuit_triple =
      bind_triple {Q = λ _. IsBlank} (modify discard) _ (modify_triple discard (λ u p. refl)) λ _.
        bind_triple {Q = λ _ u. IsReady env c.hops u} (setup env c) _
          (weaken _ (λ u p. p) (λ _ u p. p) (λ u p. inl p) (setup_triple env law c))
          λ _. weaken _ (λ u p. p) (λ _ u p. p) (λ u p. inr p) update_health_checker_nodes_triple

  -- Over lawful packages, a rebuild that returns leaves a circuit that the directory may give, with
  -- keys that were drawn one after another, one for each hop, and the checker, if there is one,
  -- watches that circuit's nodes. One that raises leaves no keys, or such a circuit with all its
  -- keys.
  pub rebuild_circuit-IsReady :
      (s : State)
      → Post
          (λ _ u. IsReady env c.hops u × IsWatched c.hops u)
          (IsSound env c.hops)
          (rebuild_circuit env c s)
  rebuild_circuit-IsReady s = rebuild_circuit_triple.at s tt
