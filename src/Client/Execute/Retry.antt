-- ===== src/Client/Execute/Retry.antt =====
-- How the attempts of `execute_circuit` follow one another.
use torr_bsds.Base.{
  ℕ, zero, suc, ◌<◌, String, ◌<>◌, ◌≡◌, refl, ◌⊎◌, inl, inr, Option, none, some, arith,
}
use torr_bsds.Runtime.Json.{Json, Exc, runtime_error, ok, err}
use torr_bsds.Runtime.Exec.{Exec, Trace, Outcome-cases}
use torr_bsds.Runtime.Env.{Env, show_num}
use torr_bsds.Client.Execute.{
  CircuitRun, max_circuit_attempts, attempts, try_circuit, execute_circuit,
}

-- So many runs of an action in a row have raised, each one where the one before left the world;
-- the last exception, if any, comes along.
pub data Fails {A : Type 0} (m : Exec A)
    : ℕ → Option Exc → Trace → Option Exc → Trace → Type 0 where
  start : {last : Option Exc} {t : Trace} → Fails m zero last t last t
  again :
      {n : ℕ} {first last : Option Exc} {exc : Exc} {t u v : Trace}
      → m t ≡ (err exc, u)
      → Fails m n (some exc) u last v
      → Fails m (suc n) first t last v

-- The exception that says that every attempt has failed.
abbrev pub exhausted : Env → Option Exc → Exc
exhausted env last = runtime_error (
    "all "
    <> show_num env max_circuit_attempts
    <> " circuit attempts failed: "
    <> elim last [ none ↦ "None" | some exc ↦ env.show_exc exc ])

module _ (env : Env) (attempt : Exec CircuitRun) where
  -- The loop ends in one of two ways, and the runs before the end have all raised.
  pub data Ends (n : ℕ) (first : Option Exc) (t : Trace) : Type 0 where
    returned :
        (k : ℕ) (last : Option Exc) (u : Trace) (run : CircuitRun) (v : Trace)
        → k < n
        → Fails attempt k first t last u
        → attempt u ≡ (ok run, v)
        → attempts env n first attempt t ≡ (ok run, v)
        → Ends n first t
    gave_up :
        (last : Option Exc) (u : Trace)
        → Fails attempt n first t last u
        → attempts env n first attempt t ≡ (err (exhausted env last), u)
        → Ends n first t

  extend :
      {n : ℕ} {first : Option Exc} (exc : Exc) (t u : Trace)
      → attempt t ≡ (err exc, u)
      → Ends n (some exc) u
      → Ends (suc n) first t
  unfolding attempts
  extend exc t u failed (returned k last w run v lt fails ran result) =
      returned (suc k) last w run v (omega arith) (again failed fails) ran (ground arith)
  extend exc t u failed (gave_up last w fails result) =
      gave_up last w (again failed fails) (ground arith)

  pub attempts-Ends : (n : ℕ) (first : Option Exc) (t : Trace) → Ends n first t
  unfolding attempts
  attempts-Ends zero none t = gave_up none t start refl
  attempts-Ends zero (some e) t = gave_up (some e) t start refl
  attempts-Ends (suc n) first t = elim (Outcome-cases (attempt t)) [
    | inl (run, v, ran) ↦ returned 0 first t run v (omega arith) start ran (ground arith)
    | inr (exc, u, failed) ↦ extend exc t u failed (attempts-Ends n (some exc) u)
  ]

module _ (env : Env) (directory_url circuit_id : String) (exit_layer : Json) (hops : ℕ) where
  abbrev one_try : Exec CircuitRun
  one_try = try_circuit env directory_url circuit_id exit_layer hops

  abbrev execution : Exec CircuitRun
  execution = execute_circuit env directory_url circuit_id exit_layer hops

  -- `execute_circuit` tries a circuit at most three times. Either one of the attempts returns,
  -- all before it have raised, and its result is the result; or all three have raised, and the
  -- exception names the last of theirs. Nothing happens between the attempts or after the last.
  pub execute_circuit_attempts :
      (t : Trace)
      → ((k : ℕ) × (last : Option Exc) × (u : Trace) × (run : CircuitRun) × (v : Trace) × (k < 3)
          × Fails one_try k none t last u
          × (one_try u ≡ (ok run, v))
          × (execution t ≡ (ok run, v)))
        ⊎ ((last : Option Exc) × (u : Trace) × Fails one_try 3 none t last u
            × (execution t ≡ (err (exhausted env last), u)))
  unfolding execute_circuit
  execute_circuit_attempts t = read (attempts-Ends env one_try 3 none t)
    where
      read :
          Ends env one_try 3 none t
          → ((k : ℕ) × (last : Option Exc) × (u : Trace) × (run : CircuitRun) × (v : Trace) × (k
                < 3)
              × Fails one_try k none t last u
              × (one_try u ≡ (ok run, v))
              × (execution t ≡ (ok run, v)))
            ⊎ ((last : Option Exc) × (u : Trace) × Fails one_try 3 none t last u
                × (execution t ≡ (err (exhausted env last), u)))
      read (returned k last u run v lt fails ran result) =
          inl (k, last, u, run, v, lt, fails, ran, result)
      read (gave_up last u fails result) = inr (last, u, fails, result)
