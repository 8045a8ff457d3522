-- ===== src/Recovery/User/Rows.antt =====
-- Which rows a request adds to the CSV.
use torr_bsds.Base.{
  ℕ, ◌-◌, ◌+◌, String, refl, ◌∙◌, ◌⊎◌, inl, inr, Bool, false, true, none, some, List, [], ◌∷◌, ◌++◌,
  append_assoc, if◌then◌else◌,
}
use torr_bsds.Runtime.Json.{Json, Exc, Result, reschedule, index, body_length}
use torr_bsds.Runtime.Exec.{Exec}
use torr_bsds.Runtime.Env.{Env, monotonic}
use torr_bsds.Client.Directory.{node_url}
use torr_bsds.Client.Onion.{build_onion, send_onion}
use torr_bsds.Client.Reply.{decrypt_response}
use torr_bsds.Recovery.Task.{
  State, User, Task, pure, lift, exec, gets, int_ms, log_csv_row, ◌>>=◌, ◌>>◌,
}
use torr_bsds.Recovery.Task.Triple.{
  Post, Triple, weaken, pure_triple, bind_triple, exec_triple, lift_triple, gets_triple, try_triple,
  raise_triple,
}
use torr_bsds.Recovery.Task.Keeps.{IgnoresPolls, keeps_rules}
use torr_bsds.Recovery.User.{
  exit_layer, needs_rebuild, Config, rebuild_circuit, fire, proactive_rebuild, send_over_circuit,
  rebuild_after_failure, request_failed, send_request,
}
use torr_bsds.Recovery.User.Logging.{
  Statuses-IgnoresPolls, Statuses, IsFailure, log_triple, rebuild_circuit-Keeps, now_triple,
  fire_triple, log_and_raise,
}

module _ (env : Env) (c : Config) where
  proactive_rebuild_rows :
      (old : List String)
      → Triple
          (Statuses old)
          (proactive_rebuild env c)
          (λ _. Statuses old)
          (Statuses (old ++ ("rebuild_failed" ∷ [])))
  unfolding proactive_rebuild
  proactive_rebuild_rows old =
      bind_triple {Q = λ _. Statuses old} (exec env (monotonic env)) _
        (now_triple env c (Statuses-IgnoresPolls old))
        λ t0.
          try_triple {E = Statuses old} _ _
            (bind_triple {Q = λ _. Statuses old} (rebuild_circuit env c) _
              (rebuild_circuit-Keeps env c old)
              λ _. search (keeps_rules, Statuses-IgnoresPolls) depth 6)
            λ exc.
              bind_triple {Q = λ _. Statuses old} (exec env (monotonic env)) _
                (now_triple env c (Statuses-IgnoresPolls old))
                λ now.
                  log_and_raise env c old "rebuild_failed" (now - t0) (now - t0) (int_ms (now - t0))
                    exc

  -- A request over the circuit that raises has logged nothing, or a success.
  abbrev MaybeSuccess : List String → User → Type 0
  MaybeSuccess old user = Statuses old user ⊎ Statuses (old ++ ("success" ∷ [])) user

  -- The end of a request that was answered.
  report_success :
      (old : List String) (t0 : ℕ) (rebuilt : Bool) (duration : ℕ) (exit_resp : Json)
      → Triple
          (Statuses old)
          (do
            now ← exec env (monotonic env)
            log_csv_row env "success" (now - t0) rebuilt duration
            body_len ← lift (body_length exit_resp)
            fire env c (int_ms (now - t0)) body_len none)
          (λ _. Statuses (old ++ ("success" ∷ [])))
          (MaybeSuccess old)
  report_success old t0 rebuilt duration exit_resp =
      bind_triple {Q = λ _. Statuses old} (exec env (monotonic env)) _
        (now_triple env c (Statuses-IgnoresPolls old))
        λ now.
          bind_triple {Q = λ _. Statuses (old ++ ("success" ∷ []))}
            (log_csv_row env "success" (now - t0) rebuilt duration) _
            (log_triple env c old "success" (now - t0) rebuilt duration)
            λ _.
              bind_triple {Q = λ _. Statuses (old ++ ("success" ∷ []))}
                (lift (body_length exit_resp)) _
                (lift_triple (body_length exit_resp) (λ a u e p. p) (λ u p. inr p))
                λ n.
                  fire_triple env c (int_ms (now - t0)) n none
                    (Statuses-IgnoresPolls (old ++ ("success" ∷ [])))

  send_over_circuit_rows :
      (old : List String) (t0 : ℕ) (rebuilt : Bool) (duration : ℕ)
      → Triple
          (Statuses old)
          (send_over_circuit env c t0 rebuilt duration)
          (λ _. Statuses (old ++ ("success" ∷ [])))
          (MaybeSuccess old)
  unfolding send_over_circuit
  send_over_circuit_rows old t0 rebuilt duration =
      bind_triple {Q = λ _. Statuses old} (gets (λ user. user)) _ (gets_triple _ (λ u p. p)) λ user.
        step_exec (build_onion env user.keys (exit_layer c) user.circuit c.hops) λ payload.
          step_lift (index user.circuit "guard") λ guard.
            step_exec (node_url env guard) λ guard_url.
              step_exec (send_onion env guard_url user.circuit_id payload) λ onion_resp.
                step_lift (index onion_resp "payload") λ reply.
                  step_exec (decrypt_response env user.keys reply c.hops)
                    λ exit_resp. report_success old t0 rebuilt duration exit_resp
    where
      step_exec :
          {A B : Type 0} {R : B → User → Type 0} (m : Exec A) {f : A → Task B}
          → ((a : A) → Triple (Statuses old) (f a) R (MaybeSuccess old))
          → Triple (Statuses old) (exec env m >>= f) R (MaybeSuccess old)
      step_exec m k =
          bind_triple (exec env m) _
            (exec_triple env m (λ a t v u polls e p. p) (λ u polls p. inl p)) k

      step_lift :
          {A B : Type 0} {R : B → User → Type 0} (r : Result A) {f : A → Task B}
          → ((a : A) → Triple (Statuses old) (f a) R (MaybeSuccess old))
          → Triple (Statuses old) (lift r >>= f) R (MaybeSuccess old)
      step_lift r k = bind_triple (lift r) _ (lift_triple r (λ a u e p. p) (λ u p. inl p)) k

  -- One more row, of a failure.
  abbrev FailedAfter : List String → User → Type 0
  FailedAfter old user = (status : String) × IsFailure status × Statuses (old ++ (status ∷ [])) user

  FailedAfter-IgnoresPolls : (old : List String) → IgnoresPolls (FailedAfter old)
  FailedAfter-IgnoresPolls old = record { at = λ u hc p. p }

  rebuild_after_failure_rows :
      {E : User → Type 0} (old : List String) (latency : ℕ)
      → Triple (Statuses old) (rebuild_after_failure env c latency) (λ _. FailedAfter old) E
  unfolding rebuild_after_failure
  rebuild_after_failure_rows old latency =
      bind_triple {Q = λ _. Statuses old} (exec env (monotonic env)) _
        (now_triple env c (Statuses-IgnoresPolls old))
        λ t_rebuild.
          try_triple {E = Statuses old} _ _
            (bind_triple {Q = λ _. Statuses old} (rebuild_circuit env c) _
              (rebuild_circuit-Keeps env c old)
              λ _.
                bind_triple {Q = λ _. Statuses old} (exec env (monotonic env)) _
                  (now_triple env c (Statuses-IgnoresPolls old))
                  λ now.
                    weaken _ (λ u p. p) (λ _ u p. ("failed_rebuilt", inr (inl refl), p)) (λ u p. p)
                      (log_triple env c old "failed_rebuilt" (latency + (now - t_rebuild)) true
                        (now - t_rebuild)))
            λ _.
              bind_triple {Q = λ _. Statuses old} (exec env (monotonic env)) _
                (now_triple env c (Statuses-IgnoresPolls old))
                λ now.
                  weaken _ (λ u p. p) (λ _ u p. ("failed_rebuild_failed", inr (inr refl), p))
                    (λ u p. p)
                    (log_triple env c old "failed_rebuild_failed" (latency + (now - t_rebuild)) true
                      (now - t_rebuild))

  request_failed_rows :
      {Q : Unit {0} → User → Type 0} (old : List String) (t0 : ℕ) (exc : Exc)
      → Triple (Statuses old) (request_failed env c t0 exc) Q (FailedAfter old)
  unfolding request_failed
  request_failed_rows old t0 exc =
      bind_triple {Q = λ _. Statuses old} (exec env (monotonic env)) _
        (now_triple env c (Statuses-IgnoresPolls old))
        λ now.
          bind_triple {Q = λ _. FailedAfter old} (rebuild_after_failure env c (now - t0)) _
            (rebuild_after_failure_rows old (now - t0))
            λ _.
              bind_triple {Q = λ _. FailedAfter old} (fire env c (int_ms (now - t0)) 0 (some exc)) _
                (fire_triple env c (int_ms (now - t0)) 0 (some exc) (FailedAfter-IgnoresPolls old))
                λ _. raise_triple reschedule (λ u p. p)

  -- What a request that raised has logged: a failure, or a success and then a failure.
  pub record LoggedFailure (old : List String) (user : User) : Type 0 where
    pub status : String
    pub failure : IsFailure status
    pub rows :
        Statuses (old ++ (status ∷ [])) user ⊎ Statuses (old ++ ("success" ∷ status ∷ [])) user

  after_one : (old : List String) (u : User) → FailedAfter old u → LoggedFailure old u
  after_one old u (status, failure, p) = record { status = status; failure = failure; rows = inl p }

  after_two :
      (old : List String) (u : User) → FailedAfter (old ++ ("success" ∷ [])) u → LoggedFailure old u
  after_two old u (status, failure, p) = record {
    status = status;
    failure = failure;
    rows = inr (p ∙ append_assoc old ("success" ∷ []) (status ∷ []));
  }

  handler_rows :
      {Q : Unit {0} → User → Type 0} (old : List String) (t0 : ℕ) (exc : Exc)
      → Triple (MaybeSuccess old) (request_failed env c t0 exc) Q (LoggedFailure old)
  handler_rows {Q} old t0 exc = record {
    at = λ s p. elim p [
      | inl one ↦
          (weaken {Q = Q} _ (λ u p. p) (λ a u q. q) (after_one old)
              (request_failed_rows old t0 exc)).at
            s one
      | inr two ↦
          (weaken {Q = Q} _ (λ u p. p) (λ a u q. q) (after_two old)
              (request_failed_rows (old ++ ("success" ∷ [])) t0 exc)).at
            s two
    ];
  }

  send_request_triple :
      (old : List String)
      → Triple
          (Statuses old)
          (send_request env c)
          (λ _. Statuses (old ++ ("success" ∷ [])))
          (LoggedFailure old)
  unfolding send_request
  send_request_triple old =
      bind_triple {Q = λ _. Statuses old} (gets (needs_rebuild env c)) _ (Keeps_gets old) λ stale.
        bind_triple {Q = λ _. Statuses old}
          (if stale then proactive_rebuild env c else pure (false, 0)) _ (Keeps_first stale)
          λ made.
            bind_triple {Q = λ _. Statuses old} (exec env (monotonic env)) _
              (now_triple env c (Statuses-IgnoresPolls old))
              λ t0.
                try_triple _ _ (send_over_circuit_rows old t0 made.0 made.1) (handler_rows old t0)
    where
      Keeps_gets :
          (l : List String)
          → Triple (Statuses l) (gets (needs_rebuild env c)) (λ _. Statuses l) (LoggedFailure l)
      Keeps_gets l = gets_triple _ (λ u p. p)

      Keeps_first :
          (stale : Bool)
          → Triple
              (Statuses old)
              (if stale then proactive_rebuild env c else pure (false, 0))
              (λ _. Statuses old)
              (LoggedFailure old)
      Keeps_first true =
          weaken _ (λ u p. p) (λ _ u p. p) (λ u p. after_one old u ("rebuild_failed", inl refl, p))
            (proactive_rebuild_rows old)
      Keeps_first false = pure_triple (false, 0) (λ u p. p)

  -- A request that returns adds exactly one row to the CSV, with the status "success". One that
  -- raises adds one row with the status of a failure, or a row with the status "success" and
  -- after it one with the status of a failure.
  pub send_request_rows :
      (old : List String) (s : State)
      → Statuses old s.0
      → Post (λ _. Statuses (old ++ ("success" ∷ []))) (LoggedFailure old) (send_request env c s)
  send_request_rows old s h = (send_request_triple old).at s h
