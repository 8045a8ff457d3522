-- ===== src/Recovery/User/Logging.antt =====
-- What the steps of a request do to the CSV: the ones that add a row, and those that add none.
use torr_bsds.Base.{
  ℕ, String, ◌≡◌, ap, ◌∙◌, ◌⊎◌, Bool, true, Option, none, some, List, [], ◌∷◌, ◌++◌, map,
}
use mathlib.Core.List.{map-append}
use torr_bsds.Runtime.Json.{Json, Exc, reschedule}
use torr_bsds.Runtime.Env.{Env, monotonic, strftime}
use torr_bsds.Recovery.Checker.{HealthChecker}
use torr_bsds.Recovery.Task.{User, Row, raise, exec, log_csv_row, ◌>>◌}
use torr_bsds.Recovery.Task.Triple.{Triple, bind_triple, modify_triple, raise_triple}
use torr_bsds.Recovery.Task.Keeps.{IgnoresPolls, Keeps, keeps_rules, Keeps-pure}
use torr_bsds.Recovery.User.{
  Config, setup, node_id, circuit_node_ids, update_nodes, update_health_checker_nodes,
  rebuild_circuit, fire,
}

-- The statuses in the shared list of rows.
abbrev pub Statuses : List String → User → Type 0
Statuses statuses user = map (λ (r : Row). r.status) user.csv_rows ≡ statuses

abbrev pub IsFailure : String → Type 0
IsFailure status =
    (status ≡ "rebuild_failed") ⊎ ((status ≡ "failed_rebuilt") ⊎ (status ≡ "failed_rebuild_failed"))

pub Statuses-IgnoresPolls : (old : List String) → IgnoresPolls (Statuses old)
Statuses-IgnoresPolls old = record { at = λ u hc p. p }

module _ (env : Env) (c : Config) where
  pub log_triple :
      {E : User → Type 0} (old : List String) (status : String) (latency : ℕ) (rebuilt : Bool)
      (duration : ℕ)
      → Triple
          (Statuses old)
          (log_csv_row env status latency rebuilt duration)
          (λ _. Statuses (old ++ (status ∷ [])))
          E
  unfolding log_csv_row strftime
  log_triple old status latency rebuilt duration = record {
    at = λ (u, t) p. map-append _ _ _ ∙ ap (λ l. l ++ (status ∷ [])) p;
  }

  node_id-Keeps :
      (P : User → Type 0) (circuit : Json) (role : String) → Keeps P (node_id env c circuit role)
  unfolding node_id
  node_id-Keeps P circuit role = search keeps_rules depth 7

  ids-Keeps : (P : User → Type 0) (circuit : Json) → Keeps P (circuit_node_ids env c circuit)
  unfolding circuit_node_ids
  ids-Keeps P circuit = search (keeps_rules, node_id-Keeps) depth 8

  update-Keeps :
      (old : List String) (hc : Option HealthChecker) (circuit : Json)
      → Keeps (Statuses old) (update_nodes env c hc circuit)
  unfolding update_nodes
  update-Keeps old none circuit = Keeps-pure tt
  update-Keeps old (some hc) circuit = search (keeps_rules, ids-Keeps, modify_triple) depth 8

  setup-Keeps : (old : List String) → Keeps (Statuses old) (setup env c)
  unfolding setup
  setup-Keeps old = search (keeps_rules, Statuses-IgnoresPolls, modify_triple) depth 12

  pub rebuild_circuit-Keeps : (old : List String) → Keeps (Statuses old) (rebuild_circuit env c)
  unfolding rebuild_circuit update_health_checker_nodes
  rebuild_circuit-Keeps old = search (keeps_rules, setup-Keeps, update-Keeps, modify_triple) depth 9

  -- Reading the clock and firing an event cannot raise.
  pub now_triple :
      {P E : User → Type 0} → IgnoresPolls P → Triple P (exec env (monotonic env)) (λ _. P) E
  unfolding monotonic
  now_triple ignores = record { at = λ s p. ignores.at s.0 (env.polled _) p }

  pub fire_triple :
      {P E : User → Type 0} (response_time response_length : ℕ) (exception : Option Exc)
      → IgnoresPolls P
      → Triple P (fire env c response_time response_length exception) (λ _. P) E
  unfolding fire
  fire_triple response_time response_length exception ignores = record {
    at = λ s p. ignores.at s.0 (env.polled _) p;
  }

  -- A handler that logs a row, fires an event and raises.
  pub log_and_raise :
      {A : Type 0} {Q : A → User → Type 0} (old : List String) (status : String)
      (latency duration response_time : ℕ) (exc : Exc)
      → Triple
          (Statuses old)
          (do
            log_csv_row env status latency true duration
            fire env c response_time 0 (some exc)
            raise reschedule)
          Q
          (Statuses (old ++ (status ∷ [])))
  log_and_raise old status latency duration response_time exc =
      bind_triple {Q = λ _. Statuses (old ++ (status ∷ []))}
        (log_csv_row env status latency true duration) _
        (log_triple old status latency true duration)
        λ _.
          bind_triple {Q = λ _. Statuses (old ++ (status ∷ []))}
            (fire env c response_time 0 (some exc)) _
            (fire_triple response_time 0 (some exc) (Statuses-IgnoresPolls (old ++ (status ∷ []))))
            λ _. raise_triple reschedule (λ u p. p)
