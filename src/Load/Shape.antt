-- ===== src/Load/Shape.antt =====
-- The load shapes of experiments/locust/echo_baseline.py, circuit_1hop.py and circuit_3hop.py
-- (which are the same) and of experiments/experiment3/locustfile.py. A run time is in
-- microseconds, the settings are in whole seconds.
pub mod Stages
use torr_bsds.Base.{ℕ, ◌+◌, ◌*◌, max, Option, none, some, List, [], ◌∷◌, ltb, if◌then◌else◌}

abbrev pub second : ℕ
second = 1_000_000

-- The users to run and the rate to spawn them at.
abbrev pub Target : Type 0
Target = ℕ × ℕ

-- The loop over the levels that are left, from the index of the first.
unfoldable pub tick_from : ℕ → List ℕ → ℕ → ℕ → Option Target
tick_from i [] stage_duration elapsed = none
tick_from i (users ∷ levels) stage_duration elapsed =
    let rest = tick_from (i + 1) levels stage_duration elapsed in
    if ltb elapsed ((i + 1) * (stage_duration * second)) then some (users, max users 10) else rest

-- `SteppedLoadShape.tick`
unfoldable pub stepped_tick : List ℕ → ℕ → ℕ → Option Target
unfolding tick_from
stepped_tick concurrency_levels stage_duration elapsed =
    tick_from 0 concurrency_levels stage_duration elapsed

-- `ConstantLoadShape.tick`
unfoldable pub constant_tick : ℕ → ℕ → ℕ → Option Target
constant_tick concurrency run_duration elapsed =
    if ltb (run_duration * second) elapsed then none else some (concurrency, concurrency)

-- The same class in circuit_1hop.py and in circuit_3hop.py
unfoldable pub one_hop_tick : List ℕ → ℕ → ℕ → Option Target
one_hop_tick = stepped_tick

unfoldable pub three_hops_tick : List ℕ → ℕ → ℕ → Option Target
three_hops_tick = stepped_tick
