-- ===== src/Scaling/Cpu.antt =====
-- experiments/scripts/generate_exp2_cpu_chart.py: the figures of its chart. Times are in
-- microseconds since the epoch; drawing and logging are left out.
pub mod Series
pub mod Drawn
use torr_bsds.Base.{
  ℕ, ◌+◌, ◌-◌, ◌*◌, ◌/◌, String, Bool, Option, none, some, List, [], ◌∷◌, ◌++◌, map, if◌then◌else◌,
}
use torr_bsds.Runtime.Json.{Result, ok, err}
use torr_bsds.Runtime.Exec.{Exec, Trace, called, get_metric, pure, lift, ◌>>=◌}
use torr_bsds.Load.Shape.{second}
use torr_bsds.Scaling.Windows.{Window, load_timestamps}

-- CloudWatch, `int`, `datetime.fromisoformat`, and the arithmetic of floating-point numbers.
pub record Host : Type 1 where
  pub Float : Type 0
  pub zero : Float
  -- `reserved == 0`
  pub is_zero : Float → Bool
  -- `sum(pts) / len(pts)` of a list that begins so
  pub mean : Float → List Float → Float
  -- `round((utilized / reserved) * 100, 2)`
  pub percent : Float → Float → Float
  pub int : String → Result ℕ
  pub fromisoformat : String → Result ℕ
  -- cluster, service, metric, start and end: the averages of the data points
  pub get_metric_statistics : Trace → String → String → String → ℕ → ℕ → Result (List Float)

abbrev pub services : List String
services = "guard-node" ∷ "relay-node" ∷ "exit-node" ∷ []

module _ (host : Host) where
  open host use {Float}

  abbrev pub average : List Float → Option Float
  average [] = none
  average (x ∷ pts) = some (host.mean x pts)

  abbrev pub percent_of : Option Float → Option Float → Option Float
  percent_of (some utilized) (some reserved) =
      if host.is_zero reserved then none else some (host.percent utilized reserved)
  percent_of _ _ = none

  unfoldable pub average_of : String → String → String → ℕ → ℕ → Exec (Option Float)
  average_of service cluster metric start end t = (
    elim (host.get_metric_statistics t cluster service metric start end) [
      | ok pts ↦ ok (average pts)
      | err e ↦ err e
    ],
    called (get_metric cluster service metric start end) ∷ t,
  )

  unfoldable pub fetch_cpu_pct : String → String → ℕ → ℕ → Exec (Option Float)
  fetch_cpu_pct service cluster start end = do
    utilized ← average_of service cluster "CpuUtilized" start end
    reserved ← average_of service cluster "CpuReserved" start end
    pure (percent_of utilized reserved)

  abbrev pub or_zero : Option Float → Float
  or_zero none = host.zero
  or_zero (some x) = x

  -- The part of a window that is shown.
  abbrev pub t_start : Window → ℕ
  t_start w = w.start + 60 * second

  abbrev pub t_end : Window → ℕ
  t_end w = w.end - 30 * second

  -- The values of a window, service by service.
  unfoldable pub window_values : String → Window → List String → Exec (List Float)
  window_values cluster w [] = pure []
  window_values cluster w (service ∷ rest) = do
    pct ← fetch_cpu_pct service cluster (t_start w) (t_end w)
    values ← window_values cluster w rest
    pure (or_zero pct ∷ values)

  -- `data[svc].append(…)` for each service.
  unfoldable pub append_each : List (List Float) → List Float → List (List Float)
  append_each (vals ∷ rest) (x ∷ values) = (vals ++ (x ∷ [])) ∷ append_each rest values
  append_each _ _ = []

  -- The loop over the windows, with the values so far of each service.
  unfoldable pub fill_series : String → List Window → List (List Float) → Exec (List (List Float))
  fill_series cluster [] series = pure series
  fill_series cluster (w ∷ windows) series = do
    values ← window_values cluster w services
    fill_series cluster windows (append_each series values)

  -- `main` up to the drawing: the relay counts, and the values of each service.
  unfoldable pub main : String → List String → Exec (List ℕ × List (List Float))
  main cluster lines = do
    windows ← lift (load_timestamps host.int host.fromisoformat lines)
    series ← fill_series cluster windows (map (λ service. []) services)
    pure (map (λ (w : Window). w.relay_count) windows, series)
