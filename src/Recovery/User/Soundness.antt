-- ===== src/Recovery/User/Soundness.antt =====
-- Every task keeps the circuit and the keys of a user together.
use torr_bsds.Base.{
  ℕ, ◌-◌, String, ◌≡◌, refl, sym, ap, ◌∙◌, inl, inr, Bool, false, Option, none, some, arith, ◌==◌,
  if◌then◌else◌, Bool-cases,
}
use torr_bsds.Runtime.Json.{Json, Exc, ok, reschedule, index, body_length}
use torr_bsds.Runtime.Exec.{Trace}
use torr_bsds.Runtime.Env.{Bytes, Env, IsLawful, monotonic}
use torr_bsds.Client.Directory.{node_url}
use torr_bsds.Client.Setup.{Keys}
use torr_bsds.Client.Onion.{build_onion, send_onion}
use torr_bsds.Client.Reply.{decrypt_response}
use torr_bsds.Client.Execute.Hops.{aes_encrypt_without_key, build_onion_without_exit_key}
use torr_bsds.Recovery.Task.{
  State, User, Task, no_keys, pure, lift, exec, gets, int_ms, log_csv_row, ◌>>=◌, ◌>>◌,
}
use torr_bsds.Recovery.Task.Triple.{
  Post, Triple, weaken, bind_triple, exec_triple, gets_triple, try_triple, raise_triple,
}
use torr_bsds.Recovery.Task.Keeps.{
  IgnoresPolls, Keeps, IgnoresRows, Keeps-log_csv_row, keeps_rules, Keeps-pure, Keeps-gets,
  Keeps-exec, Keeps-if,
}
use torr_bsds.Recovery.User.{
  exit_layer, needs_rebuild, Config, rebuild_circuit, fire, proactive_rebuild, send_over_circuit,
  rebuild_after_failure, request_failed, send_request,
}
use torr_bsds.Recovery.User.Invariant.{IsReady, IsSound, rebuild_circuit_triple}

IsSound-ignores_rows : (env : Env) (hops : ℕ) → IgnoresRows (IsSound env hops)
IsSound-ignores_rows env hops u rows (inl blank) = inl blank
IsSound-ignores_rows env hops u rows (inr ready) =
    inr (record { usable = ready.usable; fresh = ready.fresh })

IsReady-ignores_rows : (env : Env) (hops : ℕ) → IgnoresRows (IsReady env hops)
IsReady-ignores_rows env hops u rows ready = record { usable = ready.usable; fresh = ready.fresh }

IsSound-IgnoresPolls : (env : Env) (hops : ℕ) → IgnoresPolls (IsSound env hops)
IsSound-IgnoresPolls env hops = record {
  at = λ u hc p. elim p [
    | inl blank ↦ inl blank
    | inr ready ↦ inr (record { usable = ready.usable; fresh = ready.fresh })
  ];
}

IsReady-IgnoresPolls : (env : Env) (hops : ℕ) → IgnoresPolls (IsReady env hops)
IsReady-IgnoresPolls env hops = record {
  at = λ u hc ready. record { usable = ready.usable; fresh = ready.fresh };
}

module _ (env : Env) (law : IsLawful env) (c : Config) where
  rebuild_circuit-Keeps : Keeps (IsSound env c.hops) (rebuild_circuit env c)
  rebuild_circuit-Keeps =
      weaken _ (λ u p. tt) (λ _ u p. inr p.0) (λ u p. p) (rebuild_circuit_triple env law c)

  pub fire-Keeps :
      {P : User → Type 0} (response_time response_length : ℕ) (exception : Option Exc)
      → IgnoresPolls P
      → Keeps P (fire env c response_time response_length exception)
  unfolding fire
  fire-Keeps response_time response_length exception ignores = Keeps-exec env _ ignores

  log-Keeps :
      (status : String) (latency : ℕ) (rebuilt : Bool) (duration : ℕ)
      → Keeps (IsSound env c.hops) (log_csv_row env status latency rebuilt duration)
  log-Keeps status latency rebuilt duration =
      Keeps-log_csv_row env status latency rebuilt duration (IsSound-ignores_rows env c.hops)
        (IsSound-IgnoresPolls env c.hops)

  log-IsReady :
      (status : String) (latency : ℕ) (rebuilt : Bool) (duration : ℕ)
      → Keeps (IsReady env c.hops) (log_csv_row env status latency rebuilt duration)
  log-IsReady status latency rebuilt duration =
      Keeps-log_csv_row env status latency rebuilt duration (IsReady-ignores_rows env c.hops)
        (IsReady-IgnoresPolls env c.hops)

  proactive_rebuild-Keeps : Keeps (IsSound env c.hops) (proactive_rebuild env c)
  unfolding proactive_rebuild
  proactive_rebuild-Keeps =
      search (keeps_rules, IsSound-IgnoresPolls, rebuild_circuit-Keeps, log-Keeps, fire-Keeps) depth
        9

  build_onion_blank :
      (keys : Keys) (layer circuit : Json) (t : Trace) {ct : Bytes} {u : Trace}
      → keys ≡ no_keys
      → ¬ (build_onion env keys layer circuit c.hops t ≡ (ok ct, u))
  unfolding build_onion
  build_onion_blank keys layer circuit t blank run = elim (Bool-cases (c.hops == 1)) [
    | inl one ↦ aes_encrypt_without_key env law (env.dumps layer) t (rw (blank, one) at run)
    | inr more ↦
        build_onion_without_exit_key env law keys layer circuit c.hops t (ground arith)
          (ap (λ (k : Keys). k.exit_key) blank) run
  ]

  -- What follows once the onion is built.
  deliver : User → ℕ → Bool → ℕ → Bytes → Task (Unit {0})
  deliver user t0 circuit_rebuilt rebuild_duration payload = do
    guard ← lift (index user.circuit "guard")
    guard_url ← exec env (node_url env guard)
    onion_resp ← exec env (send_onion env guard_url user.circuit_id payload)
    reply ← lift (index onion_resp "payload")
    exit_resp ← exec env (decrypt_response env user.keys reply c.hops)
    now ← exec env (monotonic env)
    log_csv_row env "success" (now - t0) circuit_rebuilt rebuild_duration
    body_len ← lift (body_length exit_resp)
    fire env c (int_ms (now - t0)) body_len none

  deliver-Keeps :
      (user : User) (t0 : ℕ) (rebuilt : Bool) (duration : ℕ) (payload : Bytes)
      → Keeps (IsReady env c.hops) (deliver user t0 rebuilt duration payload)
  unfolding deliver
  deliver-Keeps user t0 rebuilt duration payload =
      search (keeps_rules, IsReady-IgnoresPolls, log-IsReady, fire-Keeps) depth 14

  send_over_circuit-IsReady :
      (t0 : ℕ) (rebuilt : Bool) (duration : ℕ)
      → Triple
          (IsSound env c.hops)
          (send_over_circuit env c t0 rebuilt duration)
          (λ _. IsReady env c.hops)
          (IsSound env c.hops)
  unfolding send_over_circuit deliver
  send_over_circuit-IsReady t0 rebuilt duration =
      bind_triple {Q = λ user u. IsSound env c.hops u × (u.keys ≡ user.keys)} (gets (λ user. user))
        _ (gets_triple _ (λ u p. (p, refl)))
        λ user.
          bind_triple {Q = λ _. IsReady env c.hops}
            (exec env (build_onion env user.keys (exit_layer c) user.circuit c.hops)) _
            (exec_triple env _
              (λ payload t v u polls e p. elim p.0 [
                | inl blank ↦
                    absurd (
                      build_onion_blank user.keys (exit_layer c) user.circuit t (sym p.1 ∙ blank) e)
                | inr ready ↦ (IsReady-IgnoresPolls env c.hops).at u polls ready
              ])
              (λ u polls p. (IsSound-IgnoresPolls env c.hops).at u polls p.0))
            λ payload.
              weaken _ (λ u p. p) (λ _ u p. p) (λ u p. inr p)
                (deliver-Keeps user t0 rebuilt duration payload)

  rebuild_after_failure-Keeps :
      (latency : ℕ) → Keeps (IsSound env c.hops) (rebuild_after_failure env c latency)
  unfolding rebuild_after_failure
  rebuild_after_failure-Keeps latency =
      search (keeps_rules, IsSound-IgnoresPolls, rebuild_circuit-Keeps, log-Keeps) depth 9

  -- The handler always raises.
  request_failed-raises :
      (t0 : ℕ) (exc : Exc)
      → Triple
          (IsSound env c.hops)
          (request_failed env c t0 exc)
          (λ _. IsReady env c.hops)
          (IsSound env c.hops)
  unfolding request_failed
  request_failed-raises t0 exc =
      bind_triple {Q = λ _. IsSound env c.hops} (exec env (monotonic env)) _
        (Keeps-exec env _ (IsSound-IgnoresPolls env c.hops))
        λ now.
          bind_triple {Q = λ _. IsSound env c.hops} (rebuild_after_failure env c (now - t0)) _
            (rebuild_after_failure-Keeps (now - t0))
            λ _.
              bind_triple {Q = λ _. IsSound env c.hops}
                (fire env c (int_ms (now - t0)) 0 (some exc)) _
                (fire-Keeps (int_ms (now - t0)) 0 (some exc) (IsSound-IgnoresPolls env c.hops))
                λ _. raise_triple reschedule (λ u p. p)

  send_request_triple :
      Triple
        (IsSound env c.hops)
        (send_request env c)
        (λ _. IsReady env c.hops)
        (IsSound env c.hops)
  unfolding send_request
  send_request_triple =
      bind_triple {Q = λ _. IsSound env c.hops} (gets (needs_rebuild env c)) _ (Keeps-gets _)
        λ stale.
          bind_triple {Q = λ _. IsSound env c.hops}
            (if stale then proactive_rebuild env c else pure (false, 0)) _
            (Keeps-if stale _ _ proactive_rebuild-Keeps (Keeps-pure (false, 0)))
            λ made.
              bind_triple {Q = λ _. IsSound env c.hops} (exec env (monotonic env)) _
                (Keeps-exec env _ (IsSound-IgnoresPolls env c.hops))
                λ t0.
                  try_triple _ _ (send_over_circuit-IsReady t0 made.0 made.1)
                    (λ exc. request_failed-raises t0 exc)

  -- Over lawful packages, a request that is made with no keys, or with a circuit of the
  -- directory's and keys that were drawn one after another, one for each of its hops, leaves the
  -- user in such a state again, also when it raises; and when it returns, the user has such a
  -- circuit with all its keys.
  pub send_request-IsReady :
      (s : State)
      → IsSound env c.hops s.0
      → Post (λ _. IsReady env c.hops) (IsSound env c.hops) (send_request env c s)
  send_request-IsReady s h = send_request_triple.at s h
