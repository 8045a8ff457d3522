-- ===== src/Recovery/User/Watching.antt =====
-- While polls end at any moment of a request, which circuit the checker watches.
use torr_bsds.Base.{
  ℕ, ◌-◌, String, ◌≡◌, refl, ◌∙◌, ◌⊎◌, inl, inr, Bool, true, false, none, some, List, [], ◌∷◌,
  if◌then◌else◌,
}
use torr_bsds.Runtime.Json.{Exc, Result, ok, err, reschedule}
use torr_bsds.Runtime.Env.{Env, IsLawful, monotonic}
use torr_bsds.Recovery.Checker.{HealthChecker, apply_poll}
use torr_bsds.Recovery.Checker.Detection.{apply_poll-ids}
use torr_bsds.Recovery.Task.{
  State, User, Task, poll_all, pure, raise, exec, gets, int_ms, log_csv_row, ◌>>◌,
}
use torr_bsds.Recovery.Task.Triple.{
  Post, Triple, weaken, pure_triple, gets_triple, bind_triple, try_triple, raise_triple,
}
use torr_bsds.Recovery.Task.Keeps.{
  IgnoresPolls, Keeps, IgnoresRows, Keeps-log_csv_row, keeps_rules, Keeps-exec,
}
use torr_bsds.Recovery.User.{
  Config, needs_rebuild, rebuild_circuit, fire, proactive_rebuild, send_over_circuit,
  request_failed, rebuild_after_failure, send_request,
}
use torr_bsds.Recovery.User.Invariant.{IsWatched, Names, rebuild_circuit_triple}
use torr_bsds.Recovery.User.Soundness.{fire-Keeps}

-- The checker, if there is one, watches the nodes of the user's circuit; a poll may have found
-- one of them missing.
pub data Watches (hops : ℕ) (user : User) : Type 0 where
  no_checker : user.health_checker ≡ none → Watches hops user
  watching :
      (hc : HealthChecker)
      → user.health_checker ≡ some hc
      → Names user.circuit hops hc.current_node_ids
      → Watches hops user

poll_all-ids :
    (polls : List (List String)) (hc : HealthChecker)
    → (poll_all polls hc).current_node_ids ≡ hc.current_node_ids
poll_all-ids [] hc = refl
poll_all-ids (healthy ∷ polls) hc =
    poll_all-ids polls (apply_poll healthy hc) ∙ apply_poll-ids healthy hc

Watches-IgnoresPolls : (hops : ℕ) → IgnoresPolls (Watches hops)
Watches-IgnoresPolls hops = record {
  at = λ u polls w. elim w [
    | no_checker e ↦ no_checker (rw e refl)
    | watching hc e names ↦
        watching (poll_all polls hc) (rw e refl) (rw (poll_all-ids polls hc) names)
  ];
}

Watches-ignores_rows : (hops : ℕ) → IgnoresRows (Watches hops)
Watches-ignores_rows hops u rows (no_checker e) = no_checker e
Watches-ignores_rows hops u rows (watching hc e names) = watching hc e names

Watches-IsWatched : (hops : ℕ) (u : User) → IsWatched hops u → Watches hops u
Watches-IsWatched hops u (inl gone) = no_checker gone
Watches-IsWatched hops u (inr (ids, names, e)) = watching _ e names

-- Nothing is said of a task that raises.
abbrev pub Anything : User → Type 0
Anything u = Unit {0}

-- The checker has asked for a rebuild, or watches the right circuit.
abbrev pub Follows : Env → Config → User → Type 0
Follows env c user = (needs_rebuild env c user ≡ true) ⊎ Watches c.hops user

module _ (env : Env) (law : IsLawful env) (c : Config) where
  abbrev ignores : IgnoresPolls (Watches c.hops)
  ignores = Watches-IgnoresPolls c.hops

  log-Keeps :
      (status : String) (latency : ℕ) (rebuilt : Bool) (duration : ℕ)
      → Keeps (Watches c.hops) (log_csv_row env status latency rebuilt duration)
  log-Keeps status latency rebuilt duration =
      Keeps-log_csv_row env status latency rebuilt duration (Watches-ignores_rows c.hops) ignores

  send_over_circuit-Keeps :
      (t0 : ℕ) (rebuilt : Bool) (duration : ℕ)
      → Keeps (Watches c.hops) (send_over_circuit env c t0 rebuilt duration)
  unfolding send_over_circuit
  send_over_circuit-Keeps t0 rebuilt duration =
      search (keeps_rules, ignores, log-Keeps, fire-Keeps env law c) depth 20

  anything : {A : Type 0} (m : Task A) → Triple Anything m (λ _. Anything) Anything
  anything {A} m = record { at = λ s p. split (m s) }
    where
      split : (r : Result A × State) → Post (λ _. Anything) Anything r
      split (ok a, s) = tt
      split (err e, s) = tt

  -- The handlers end by raising.
  handler :
      {Q : Bool × ℕ → User → Type 0} (m : Task (Unit {0}))
      → Triple Anything (m >> raise reschedule) Q Anything
  handler m =
      bind_triple {Q = λ _. Anything} m _ (anything m) λ _. raise_triple reschedule (λ u p. p)

  rebuild_circuit-Watches : Triple Anything (rebuild_circuit env c) (λ _. Watches c.hops) Anything
  rebuild_circuit-Watches =
      weaken _ (λ u p. tt) (λ _ u p. Watches-IsWatched c.hops u p.1) (λ u p. tt)
        (rebuild_circuit_triple env law c)

  proactive_rebuild-Watches :
      Triple Anything (proactive_rebuild env c) (λ _. Watches c.hops) Anything
  unfolding proactive_rebuild
  proactive_rebuild-Watches =
      bind_triple {Q = λ _. Anything} (exec env (monotonic env)) _ (anything _) λ t_rebuild.
        try_triple {E = Anything} _ _
          (bind_triple {Q = λ _. Watches c.hops} (rebuild_circuit env c) _ rebuild_circuit-Watches
            λ _.
              bind_triple {Q = λ _. Watches c.hops} (exec env (monotonic env)) _
                (weaken _ (λ u p. p) (λ _ u p. p) (λ u p. tt)
                  (Keeps-exec env (monotonic env) ignores))
                λ now. pure_triple _ (λ u p. p))
          λ exc. bind_triple {Q = λ _. Anything} (exec env (monotonic env)) _ (anything _) λ now.
            bind_triple {Q = λ _. Anything}
              (log_csv_row env "rebuild_failed" (now - t_rebuild) true (now - t_rebuild)) _
              (anything _) λ _. handler (fire env c (int_ms (now - t_rebuild)) 0 (some exc))

  request_failed-raises :
      (t0 : ℕ) (exc : Exc)
      → Triple Anything (request_failed env c t0 exc) (λ _. Watches c.hops) Anything
  unfolding request_failed
  request_failed-raises t0 exc =
      bind_triple {Q = λ _. Anything} (exec env (monotonic env)) _ (anything _) λ now.
        bind_triple {Q = λ _. Anything} (rebuild_after_failure env c (now - t0)) _ (anything _) λ _.
          bind_triple {Q = λ _. Anything} (fire env c (int_ms (now - t0)) 0 (some exc)) _
            (anything _) λ _. raise_triple reschedule (λ u p. p)

  first_rebuild :
      (stale : Bool)
      → Triple
          (λ u. (stale ≡ true) ⊎ Watches c.hops u)
          (if stale then proactive_rebuild env c else pure (false, 0))
          (λ _. Watches c.hops)
          Anything
  first_rebuild true = weaken _ (λ u p. tt) (λ _ u p. p) (λ u p. p) proactive_rebuild-Watches
  first_rebuild false = pure_triple (false, 0) (λ u p. elim p [ inl e ↦ cc | inr w ↦ w ])

  send_request_triple : Triple (Follows env c) (send_request env c) (λ _. Watches c.hops) Anything
  unfolding send_request
  send_request_triple =
      bind_triple {Q = λ stale u. (stale ≡ true) ⊎ Watches c.hops u} (gets (needs_rebuild env c)) _
        (gets_triple (needs_rebuild env c) (λ u p. p))
        λ stale.
          bind_triple {Q = λ _. Watches c.hops}
            (if stale then proactive_rebuild env c else pure (false, 0)) _ (first_rebuild stale)
            λ made.
              bind_triple {Q = λ _. Watches c.hops} (exec env (monotonic env)) _
                (weaken _ (λ u p. p) (λ _ u p. p) (λ u p. tt)
                  (Keeps-exec env (monotonic env) ignores))
                λ t0.
                  try_triple {E = Anything} _ _
                    (weaken _ (λ u p. p) (λ _ u p. p) (λ u p. tt)
                      (send_over_circuit-Keeps t0 made.0 made.1))
                    (request_failed-raises t0)

  -- Over lawful packages, whatever polls end while it runs: a request that starts when the
  -- checker has asked for a rebuild, or when the checker watches the nodes of the user's circuit,
  -- and that returns, leaves a checker, if there is one, that watches the nodes of the user's
  -- circuit.
  pub send_request-Watches :
      (s : State) → Follows env c s.0 → Post (λ _. Watches c.hops) Anything (send_request env c s)
  send_request-Watches s h = send_request_triple.at s h
