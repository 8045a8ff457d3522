-- ===== src/Load/Circuit/Reports.antt =====
-- What a circuit test reports to Locust.
use torr_bsds.Base.{ℕ, String, none, some, List, [], ◌∷◌, ◌++◌, ◌≡◌, refl, ◌∙◌, ap, inl, inr}
use torr_bsds.Runtime.Json.{Json, Exc, reschedule, Result, ok, err, body_length}
use torr_bsds.Runtime.Exec.{
  Exec, Trace, Report, fired, read_clock, lift, ◌>>=◌, made_uuid, continue, Outcome-cases,
  Result-cases,
}
use torr_bsds.Runtime.Env.{Env, monotonic, uuid4}
use torr_bsds.Runtime.Quiet.{reports}
use torr_bsds.Client.Directory.Checked.{IsUsable}
use torr_bsds.Client.Setup.{Keys}
use torr_bsds.Load.Circuit.{
  elapsed_ms, echo_request, fire, setup_phase, request_phase, hop_name, run_circuit,
}
use torr_bsds.Load.Circuit.Phases.{
  setup_report, request_report, making, Quiet-making, asking, Quiet-asking, making-IsUsable,
}

-- A test whose setup begins after a trace.
module _ (env : Env) (name : String) (hops : ℕ) (url id : String) (exit_layer : Json)
    (t : Trace) where
  -- The setup ends so, that long after the clock was read.
  abbrev pub Sets : Result (Json × Keys) → Trace → ℕ → Type 0
  Sets r u ms =
      (making env hops url id (read_clock ∷ t) ≡ (r, u))
      × (ms ≡ elapsed_ms (env.clock t) (env.clock u))

  -- When a setup that returned has been reported.
  abbrev pub set_up : Trace → ℕ → Trace
  set_up u ms = fired (setup_report name ms none) ∷ read_clock ∷ u

  -- After it, the request over what was made ends so, that long after the clock was read again.
  abbrev pub Asks : Trace → Json × Keys → Result Json → Trace → ℕ → Type 0
  Asks v made r w ms =
      (asking env hops exit_layer id made.0 made.1 (read_clock ∷ v) ≡ (r, w))
      × (ms ≡ elapsed_ms (env.clock v) (env.clock w))

  -- The setup returns, and the request ends so; with the time of each.
  abbrev pub Asked : Result Json → ℕ → ℕ → Type 0
  Asked r ms ms' =
      (made : Json × Keys) × (u : Trace) × (w : Trace) × (Sets (ok made) u ms)
      × (Asks (set_up u ms) made r w ms')

  -- The ways in which a test ends, with the reports it has made, newest first.
  pub data Ends : Result (Unit {0}) → List Report → Type 0 where
    setup_failed :
        (ms : ℕ) (e : Exc) (u : Trace)
        → Sets (err e) u ms
        → Ends (err reschedule) (setup_report name ms (some e) ∷ [])
    request_failed :
        (ms ms' : ℕ) (e : Exc)
        → Asked (err e) ms ms'
        → Ends
            (err reschedule)
            (request_report name ms' 0 (some e) ∷ setup_report name ms none ∷ [])
    answered :
        (ms ms' bytes : ℕ) (answer : Json)
        → Asked (ok answer) ms ms'
        → body_length answer ≡ ok bytes
        → Ends (ok tt) (request_report name ms' bytes none ∷ setup_report name ms none ∷ [])
    -- the answer's body has no length, which is found outside the `try`
    unmeasured :
        (ms ms' : ℕ) (answer : Json) (e : Exc)
        → Asked (ok answer) ms ms'
        → body_length answer ≡ err e
        → Ends (err e) (setup_report name ms none ∷ [])

  -- A run and what it adds to the reports of before.
  abbrev pub Reported : Result (Unit {0}) × Trace → Type 0
  Reported (r, u) = (new : List Report) × Ends r new × (reports u ≡ new ++ reports t)

  -- The ways in which the setup ends.
  data SetupEnds : Result (Json × Keys) × Trace → Type 0 where
    raised :
        (e : Exc) (ms : ℕ) (u : Trace)
        → Sets (err e) u ms
        → SetupEnds (err reschedule, fired (setup_report name ms (some e)) ∷ read_clock ∷ u)
    returned :
        (made : Json × Keys) (ms : ℕ) (u : Trace)
        → Sets (ok made) u ms
        → SetupEnds (ok made, set_up u ms)

  setup_phase-ends : SetupEnds (setup_phase env name hops url id t)
  unfolding setup_phase making fire monotonic
  setup_phase-ends = elim (Outcome-cases (making env hops url id (read_clock ∷ t))) [
    | inl (made, u, e) ↦ rw e (returned made (elapsed_ms (env.clock t) (env.clock u)) u (e, refl))
    | inr (x, u, e) ↦ rw e (raised x (elapsed_ms (env.clock t) (env.clock u)) u (e, refl))
  ]

  -- The ways in which the request over what was made ends.
  data RequestEnds (v : Trace) (made : Json × Keys) : Result (Json × ℕ) × Trace → Type 0 where
    request_raised :
        (e : Exc) (ms : ℕ) (w : Trace)
        → Asks v made (err e) w ms
        → RequestEnds v made
            (err reschedule, fired (request_report name ms 0 (some e)) ∷ read_clock ∷ w)
    request_returned :
        (answer : Json) (ms : ℕ) (w : Trace)
        → Asks v made (ok answer) w ms
        → RequestEnds v made (ok (answer, ms), read_clock ∷ w)

  request_phase-ends :
      (v : Trace) (made : Json × Keys)
      → RequestEnds v made (request_phase env name hops exit_layer id made.0 made.1 v)
  unfolding request_phase asking fire monotonic
  request_phase-ends v made =
      elim (Outcome-cases (asking env hops exit_layer id made.0 made.1 (read_clock ∷ v))) [
        | inl (a, w, e) ↦
            rw e (request_returned a (elapsed_ms (env.clock v) (env.clock w)) w (e, refl))
        | inr (x, w, e) ↦
            rw e (request_raised x (elapsed_ms (env.clock v) (env.clock w)) w (e, refl))
      ]

  Sets-reports :
      {r : Result (Json × Keys)} {u : Trace} {ms : ℕ} → Sets r u ms → reports u ≡ reports t
  unfolding reports
  Sets-reports (e, _) = rw e at (Quiet-making env hops url id (read_clock ∷ t))

  Asks-reports :
      (v : Trace) (made : Json × Keys) {w : Trace} {r : Result Json} {ms : ℕ}
      → Asks v made r w ms
      → reports w ≡ reports v
  unfolding reports
  Asks-reports v made (e, _) =
      rw e at (Quiet-asking env hops exit_layer id made.0 made.1 (read_clock ∷ v))

  pub last_report :
      (ms ms' : ℕ) (answer : Json) (u : Trace)
      → Asked (ok answer) ms ms'
      → reports u ≡ setup_report name ms none ∷ reports t
      → Reported
          ((lift (body_length answer) >>= λ bytes. fire "circuit_request" name ms' bytes none) u)
  unfolding fire reports
  last_report ms ms' answer u asked e = elim (Result-cases (body_length answer)) [
    | inl (n, h) ↦
        rw h (_, answered ms ms' n answer asked h, ap (λ l. request_report name ms' n none ∷ l) e)
    | inr (x, h) ↦ rw h (_, unmeasured ms ms' answer x asked h, e)
  ]

  -- The two phases, and any end that reports what a test does after them.
  pub phases-Reported :
      (finish : Json × Keys → Json × ℕ → Exec (Unit {0}))
      → ((made : Json × Keys) (got : Json × ℕ) (ms : ℕ) (u : Trace)
          → IsUsable made.0 hops
          → Asked (ok got.0) ms got.1
          → reports u ≡ setup_report name ms none ∷ reports t
          → Reported (finish made got u))
      → Reported (
          (setup_phase env name hops url id >>= λ made.
          request_phase env name hops exit_layer id made.0 made.1 >>= finish made)
            t)
  unfolding reports
  phases-Reported finish done = after_setup (setup_phase env name hops url id t) setup_phase-ends
    where
      after_request :
          (made : Json × Keys) (ms : ℕ) (u : Trace) (r : Result (Json × ℕ) × Trace)
          → Sets (ok made) u ms
          → RequestEnds (set_up u ms) made r
          → Reported (continue r (finish made))
      after_request made ms u r set (request_raised x ms' w asks) = (
        _,
        request_failed ms ms' x (made, u, w, set, asks),
        ap (λ l. request_report name ms' 0 (some x) ∷ l)
            (Asks-reports (set_up u ms) made asks
              ∙ ap (λ l. setup_report name ms none ∷ l) (Sets-reports set)),
      )
      after_request made ms u r set (request_returned answer ms' w asks) =
          done made (answer, ms') ms (read_clock ∷ w)
            (making-IsUsable env hops url id (read_clock ∷ t) set.0) (made, u, w, set, asks)
            (Asks-reports (set_up u ms) made asks
              ∙ ap (λ l. setup_report name ms none ∷ l) (Sets-reports set))

      after_setup :
          (r : Result (Json × Keys) × Trace)
          → SetupEnds r
          → Reported (
              continue r
                λ made. request_phase env name hops exit_layer id made.0 made.1 >>= finish made)
      after_setup r (raised x ms u set) = (
        _,
        setup_failed ms x u set,
        ap (λ l. setup_report name ms (some x) ∷ l) (Sets-reports set),
      )
      after_setup r (returned made ms u set) =
          after_request made ms u _ set (request_phase-ends (set_up u ms) made)

module _ (env : Env) where
  -- A test over a circuit reports its setup once. If the setup returned, it reports the request
  -- once, unless the answer has no body whose length can be taken: then it raises that exception
  -- and reports no request. A failed phase is reported with the exception that it raised and
  -- reschedules the task, and nothing is reported after it. Each report has the time between the
  -- readings of the clock before and after its phase, and that of an answered request the length
  -- of the answer's body.
  pub run_circuit-reports :
      (hops : ℕ) (url echo : String) (t : Trace)
      → Reported env
          (hop_name env hops)
          hops
          url
          (env.uuid t)
          (echo_request echo)
          (made_uuid ∷ t)
          (run_circuit env hops url echo t)
  unfolding run_circuit uuid4
  run_circuit-reports hops url echo t =
      phases-Reported env (hop_name env hops) hops url (env.uuid t) (echo_request echo)
        (made_uuid ∷ t) _
        λ made got ms u usable asked e.
          last_report env (hop_name env hops) hops url (env.uuid t) (echo_request echo)
            (made_uuid ∷ t) ms got.1 got.0 u asked e
