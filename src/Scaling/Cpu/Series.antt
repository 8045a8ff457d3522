-- ===== src/Scaling/Cpu/Series.antt =====
-- What the chart of the CPU shows, given what CloudWatch answers.
use torr_bsds.Base.{ℕ, String, ◌≡◌, refl, List, [], ◌∷◌, ◌++◌, map, append_assoc, append-nil}
use torr_bsds.Runtime.Json.{ok}
use torr_bsds.Runtime.Exec.{Trace, called, get_metric}
use torr_bsds.Scaling.Windows.{Window, le_window, load_timestamps, load_timestamps-IsSorted}
use torr_bsds.Runtime.Sort.{IsSorted}
use torr_bsds.Scaling.Cpu.{
  Host, services, average, percent_of, average_of, fetch_cpu_pct, or_zero, t_start, t_end,
  window_values, append_each, fill_series, main,
}

module _ (host : Host) (cluster : String) (points : String → String → ℕ → ℕ → List host.Float) where
  -- Asked for a service's metric in a part of the past, CloudWatch always gives these averages.
  abbrev pub Answers : Type 0
  Answers =
      (t : Trace) (service metric : String) (start end : ℕ)
      → host.get_metric_statistics t cluster service metric start end
        ≡ ok (points service metric start end)

  -- The mean use in the part of the window over the mean reserve, or 0 if one of them is missing
  -- or nothing is reserved.
  abbrev pub value : String → Window → host.Float
  value service w = or_zero host (
      percent_of host (average host (points service "CpuUtilized" (t_start host w) (t_end host w)))
        (average host (points service "CpuReserved" (t_start host w) (t_end host w))))

  -- CloudWatch is asked for what a service used in the part of the window, and for what was
  -- reserved.
  abbrev pub asked_for : Window → String → Trace → Trace
  asked_for w service t =
      called (get_metric cluster service "CpuReserved" (t_start host w) (t_end host w))
      ∷ called (get_metric cluster service "CpuUtilized" (t_start host w) (t_end host w))
      ∷ t

  -- For each of the windows in order, it is asked for each of the services.
  unfoldable pub asked_each : Window → List String → Trace → Trace
  asked_each w [] t = t
  asked_each w (service ∷ rest) t = asked_each w rest (asked_for w service t)

  unfoldable pub asked : List Window → Trace → Trace
  asked [] t = t
  asked (w ∷ windows) t = asked windows (asked_each w services t)

  module _ (answers : Answers) where
    average_of-points :
        (service metric : String) (start end : ℕ) (t : Trace)
        → average_of host service cluster metric start end t ≡ (
          ok (average host (points service metric start end)),
          called (get_metric cluster service metric start end) ∷ t,
        )
    unfolding average_of
    average_of-points service metric start end t = rw (answers t service metric start end) refl

    fetch_cpu_pct-asked :
        (service : String) (w : Window) (t : Trace)
        → fetch_cpu_pct host service cluster (t_start host w) (t_end host w) t ≡ (
          ok (
              percent_of host
                (average host (points service "CpuUtilized" (t_start host w) (t_end host w)))
                (average host (points service "CpuReserved" (t_start host w) (t_end host w)))),
          asked_for w service t,
        )
    unfolding fetch_cpu_pct
    fetch_cpu_pct-asked service w t =
        rw
          (
            average_of-points service "CpuUtilized" (t_start host w) (t_end host w) t,
            average_of-points service "CpuReserved" (t_start host w) (t_end host w),
          )
          refl

    window_values-asked_each :
        (w : Window) (l : List String) (t : Trace)
        → window_values host cluster w l t
          ≡ (ok (map (λ service. value service w) l), asked_each w l t)
    unfolding window_values asked_each
    window_values-asked_each w [] t = refl
    window_values-asked_each w (service ∷ rest) t =
        rw
          (fetch_cpu_pct-asked service w t, window_values-asked_each w rest (asked_for w service t))
          refl

    pub fill_series-asked :
        (windows : List Window) (a b c : List host.Float) (t : Trace)
        → fill_series host cluster windows (a ∷ b ∷ c ∷ []) t ≡ (
          ok (
              (a ++ map (value "guard-node") windows)
              ∷ (b ++ map (value "relay-node") windows)
              ∷ (c ++ map (value "exit-node") windows)
              ∷ []),
          asked windows t,
        )
    unfolding fill_series append_each asked
    fill_series-asked [] a b c t = rw (append-nil a, append-nil b, append-nil c) refl
    fill_series-asked (w ∷ windows) a b c t =
        let x = value "guard-node" w in
        let y = value "relay-node" w in
        let z = value "exit-node" w in
        let rest =
          fill_series-asked windows (a ++ (x ∷ [])) (b ++ (y ∷ [])) (c ++ (z ∷ []))
            (asked_each w services t) in
        let rest' =
          rw
            (
              append_assoc a (x ∷ []) (map (value "guard-node") windows),
              append_assoc b (y ∷ []) (map (value "relay-node") windows),
              append_assoc c (z ∷ []) (map (value "exit-node") windows),
            )
            at rest in
        rw (window_values-asked_each w services t) rest'

    -- If CloudWatch always gives the same averages for a part of the past, and the lines can be
    -- read as windows: the chart shows for each of the three services one value per window, in
    -- the order of the relay counts, each from a minute after the window's start to half a
    -- minute before its end.
    pub main-series :
        (lines : List String) (windows : List Window) (t : Trace)
        → load_timestamps host.int host.fromisoformat lines ≡ ok windows
        → IsSorted le_window windows
          × ((main host cluster lines t).0
              ≡ ok (
                map (λ (w : Window). w.relay_count) windows,
                map (λ service. map (value service) windows) services,
              ))
    unfolding main
    main-series lines windows t read = (
      load_timestamps-IsSorted host.int host.fromisoformat lines windows read,
      rw (read, fill_series-asked windows [] [] [] t) refl,
    )
