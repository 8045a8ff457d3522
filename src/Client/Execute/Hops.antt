-- ===== src/Client/Execute/Hops.antt =====
-- Hop counts other than 1 and 3.
use torr_bsds.Base.{ℕ, String, ◌≡◌, ◌≢◌, ne→==-false, inl, inr, Option, none}
use torr_bsds.Runtime.Json.{Json, Exc, ok, err}
use torr_bsds.Runtime.Exec.{Trace}
use torr_bsds.Runtime.Env.{Bytes, Env, IsLawful, monotonic, urandom}
use torr_bsds.Runtime.Returns.{bind_ok}
use torr_bsds.Client.Aes.{aes_encrypt}
use torr_bsds.Client.Directory.{get_circuit}
use torr_bsds.Client.Setup.{Keys, setup_circuit}
use torr_bsds.Client.Setup.Outcome.{setup_circuit-IsSetUp}
use torr_bsds.Client.Onion.{build_onion}
use torr_bsds.Client.Execute.{CircuitRun, try_circuit, execute_circuit}
use torr_bsds.Client.Execute.Retry.{Fails, exhausted, execute_circuit_attempts}

module _ (env : Env) (law : IsLawful env) where
  pub aes_encrypt_without_key :
      (plain : Bytes) (t : Trace) {ct : Bytes} {u : Trace}
      → ¬ (aes_encrypt env none plain t ≡ (ok ct, u))
  unfolding aes_encrypt urandom
  aes_encrypt_without_key plain t h = cc

  pub build_onion_without_exit_key :
      (keys : Keys) (exit_layer circuit : Json) (hops : ℕ) (t : Trace) {ct : Bytes} {u : Trace}
      → hops ≢ 1
      → keys.exit_key ≡ none
      → ¬ (build_onion env keys exit_layer circuit hops t ≡ (ok ct, u))
  unfolding build_onion
  build_onion_without_exit_key keys exit_layer circuit hops t h e run =
      bind_ok (aes_encrypt env keys.exit_key (env.dumps exit_layer)) _ t
        (rw (ne→==-false hops 1 h) at run)
        λ c v ran more. aes_encrypt_without_key (env.dumps exit_layer) t (rw e at ran)

  try_circuit_unsupported :
      (url id : String) (exit_layer : Json) (hops : ℕ) (t : Trace) {run : CircuitRun} {u : Trace}
      → hops ≢ 1
      → hops ≢ 3
      → ¬ (try_circuit env url id exit_layer hops t ≡ (ok run, u))
  unfolding try_circuit
  try_circuit_unsupported url id exit_layer hops t h₁ h₃ ran =
      bind_ok (get_circuit env url hops) _ t ran λ circuit t₁ e₁ r₁.
        bind_ok (monotonic env) _ t₁ r₁ λ t0 t₂ e₂ r₂.
          bind_ok (setup_circuit env circuit id hops) _ t₂ r₂ λ keys t₃ e₃ r₃.
            bind_ok (monotonic env) _ t₃ r₃ λ t1 t₄ e₄ r₄.
              bind_ok (build_onion env keys exit_layer circuit hops) _ t₄ r₄ λ ct t₅ e₅ r₅.
                let s = setup_circuit-IsSetUp env law circuit id hops t₂ keys t₃ e₃ in
                build_onion_without_exit_key keys exit_layer circuit hops t₄ h₁ (s.fresh.no_exit h₃)
                  e₅

  -- Over lawful packages and with a hop count other than 1 and 3, `execute_circuit` can never
  -- return: it takes up all three attempts, and raises the exception that says so.
  pub execute_circuit_unsupported :
      (url id : String) (exit_layer : Json) (hops : ℕ) (t : Trace)
      → hops ≢ 1
      → hops ≢ 3
      → (last : Option Exc) × (u : Trace) × Fails
          (try_circuit env url id exit_layer hops)
          3
          none
          t
          last
          u
        × (execute_circuit env url id exit_layer hops t ≡ (err (exhausted env last), u))
  execute_circuit_unsupported url id exit_layer hops t h₁ h₃ =
      elim (execute_circuit_attempts env url id exit_layer hops t) [
        | inl (k, last, u, run, v, lt, fails, ran, result) ↦
            absurd (try_circuit_unsupported url id exit_layer hops u h₁ h₃ ran)
        | inr failed ↦ failed
      ]
