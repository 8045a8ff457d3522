-- ===== src/Steady/Drawn.antt =====
-- experiments/scripts/generate_exp1_charts.py: what its charts show, and where they go. Logging,
-- sizes, fonts, grids, markers and line styles are left out.
pub mod Saved
use torr_bsds.Base.{ℕ, String, ◌<>◌, Option, List, [], ◌∷◌, ◌++◌, map, leb, str_eq, if◌then◌else◌}
use torr_bsds.Runtime.Json.{Result}
use torr_bsds.Runtime.Exec.{
  Exec, Trace, called, write_file, put_object, pure, lift, try, ◌>>=◌, ◌>>◌,
}
use torr_bsds.Runtime.Sort.{sort}
use torr_bsds.Steady.{
  Floats, HistoryRow, Point, concurrency_levels, load_history, steady_state_by_level, hop_cost,
}

-- What `COLORS`, `SCENARIO_LABELS` and `HISTORY_FILES` say of a scenario.
pub record Style : Type 0 where
  pub color : String
  pub label : String
  pub file : String

abbrev pub direct_style : Style
direct_style = record {
  color = "#2196F3";
  label = "Direct (no circuit)";
  file = "direct_stats_history.csv";
}

abbrev pub one_hop_style : Style
one_hop_style = record {
  color = "#FF9800";
  label = "1-hop circuit";
  file = "1hop_stats_history.csv";
}

abbrev pub three_hops_style : Style
three_hops_style = record {
  color = "#F44336";
  label = "3-hop circuit";
  file = "3hop_stats_history.csv";
}

module _ (F : Floats) where
  open F use {Float}

  -- What a call of `ax` draws: a curve, or a bar for each level with the text over it.
  pub data Artist : Type 0 where
    plot : (points : List (ℕ × Float)) (color label : String) → Artist
    bar : (heights : List Float) (color label : String) (texts : List String) → Artist

  pub record Chart : Type 0 where
    pub title : String
    pub x_label : String
    pub y_label : String
    pub x_ticks : List ℕ
    pub artists : List Artist

  -- `pandas`, `matplotlib`, the file system and S3. The history in a file is `none` if it is not
  -- there.
  pub record Host : Type 0 where
    pub history : String → Result (Option (List HistoryRow))
    -- a height as a whole number
    pub text : Float → String
    pub png : Chart → List ℕ
    pub write_file : Trace → String → List ℕ → Result (Unit {0})
    pub put_object : Trace → String → String → List ℕ → Result (Unit {0})

  pub record Args : Type 0 where
    pub results_dir : String
    pub bucket : String
    pub out_dir : String

  -- The rows of the three scenarios.
  pub record Scenarios : Type 0 where
    pub direct : List (Point F)
    pub one_hop : List (Point F)
    pub three_hops : List (Point F)

  abbrev pub style_axes : String → String → String → List Artist → Chart
  style_axes title x_label y_label artists = record {
    title = title;
    x_label = x_label;
    y_label = y_label;
    x_ticks = concurrency_levels;
    artists = artists;
  }

  -- The values of a scenario in the order of the levels; one without values is left out.
  unfoldable pub line_of : (Point F → Option Float) → Style → List (Point F) → List Artist
  line_of metric style df = line (
      sort (λ (a b : ℕ × Float). leb a.0 b.0)
        (steady_state_by_level F metric df concurrency_levels))
    where
      line : List (ℕ × Float) → List Artist
      line [] = []
      line (v ∷ vals) = plot (v ∷ vals) style.color style.label ∷ []

  -- The loop over the scenarios, by the column.
  unfoldable pub lines_of : (Point F → Option Float) → Scenarios → List Artist
  lines_of metric scenarios =
      line_of metric direct_style scenarios.direct
      ++ (line_of metric one_hop_style scenarios.one_hop
          ++ line_of metric three_hops_style scenarios.three_hops)

  unfoldable pub chart_latency : (Point F → Option Float) → String → Scenarios → Chart
  chart_latency col percentile scenarios =
      style_axes ("Experiment 1 — p" <> percentile <> " Latency vs Concurrency") "Concurrent users"
        ("p" <> percentile <> " latency (ms)") (lines_of col scenarios)

  unfoldable pub chart_throughput : Scenarios → Chart
  chart_throughput scenarios =
      style_axes "Experiment 1 — Throughput vs Concurrency" "Concurrent users" "Requests per second"
        (lines_of (λ (p : Point F). p.requests_per_s) scenarios)

  abbrev steady_p50 : List (Point F) → List (ℕ × Float)
  steady_p50 df = steady_state_by_level F (λ (p : Point F). p.p50) df concurrency_levels

  module _ (host : Host) where
    abbrev bars_of : List Float → String → String → Artist
    bars_of cost color label = bar cost color label (map (λ y. host.text y <> " ms") cost)

    unfoldable pub chart_hop_cost : Scenarios → Chart
    chart_hop_cost scenarios =
        style_axes "Experiment 1 — Per-hop Latency Cost (p50)" "Concurrent users"
          "Added latency (ms)"
          (bars_of (hop_cost F (steady_p50 scenarios.one_hop) (steady_p50 scenarios.direct))
              "#FF9800" "Guard encryption cost (1-hop − direct)"
            ∷ bars_of (hop_cost F (steady_p50 scenarios.three_hops) (steady_p50 scenarios.one_hop))
                "#F44336" "Relay + exit cost (3-hop − 1-hop)"
            ∷ [])

    unfoldable pub load_scenario : String → Style → Exec (List (Point F))
    load_scenario results_dir style = do
      rows ← lift (host.history (results_dir <> "/" <> style.file))
      pure (load_history F rows)

    unfoldable pub load_all_scenarios : String → Exec Scenarios
    load_all_scenarios results_dir = do
      direct ← load_scenario results_dir direct_style
      one_hop ← load_scenario results_dir one_hop_style
      three_hops ← load_scenario results_dir three_hops_style
      pure (record { direct = direct; one_hop = one_hop; three_hops = three_hops })

    -- `_save`; any exception of the upload is logged
    unfoldable pub save : Args → String → Chart → Exec (Unit {0})
    save args filename chart = do
      λ t. (
        host.write_file t (args.out_dir <> "/" <> filename) (host.png chart),
        called (write_file (args.out_dir <> "/" <> filename) (host.png chart)) ∷ t,
      )
      if str_eq args.bucket ""
          then pure tt
          else try
              (λ t. (
                host.put_object t args.bucket ("charts/experiment-1/" <> filename) (host.png chart),
                called
                      (put_object args.bucket ("charts/experiment-1/" <> filename) (host.png chart))
                    ∷ t,
              ))
              (λ exc. pure tt)

    unfoldable pub main : Args → Exec (Unit {0})
    main args = do
      scenarios ← load_all_scenarios args.results_dir
      save args "exp1_p50_latency_vs_concurrency.png"
          (chart_latency (λ (p : Point F). p.p50) "50" scenarios)
      save args "exp1_p95_latency_vs_concurrency.png"
          (chart_latency (λ (p : Point F). p.p95) "95" scenarios)
      save args "exp1_hop_latency_cost.png" (chart_hop_cost scenarios)
      save args "exp1_throughput_vs_concurrency.png" (chart_throughput scenarios)
