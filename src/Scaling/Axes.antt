-- ===== src/Scaling/Axes.antt =====
-- experiments/scripts/generate_exp2_charts.py: what stands in its four charts. Sizes, fonts, grids,
-- markers and line styles are left out.
use torr_bsds.Base.{ℕ, String, ◌<>◌, List, [], ◌∷◌, map}
use torr_bsds.Scaling.{relay_counts}

-- What a call of `ax` draws.
pub data Artist (Float : Type 0) : Type 0 where
  -- a curve, and a horizontal line
  plot : (points : List (ℕ × Float)) (label color : String) → Artist Float
  axhline : (y : Float) (label : String) → Artist Float
  annotate : (point : ℕ × Float) (text : String) → Artist Float
  -- the bars of a service, side by side with those of the others, and the texts over them
  bar : (heights : List Float) (label color : String) (texts : List String) → Artist Float
  text : String → Artist Float

pub record Axes (Float : Type 0) : Type 0 where
  pub title : String
  pub x_label : String
  pub y_label : String
  pub x_ticks : List String
  pub artists : List (Artist Float)

-- The texts of numbers, and the arithmetic that only they need.
pub record Texts (Float : Type 0) : Type 0 where
  -- without decimals, and with a sign
  pub whole : Float → String
  pub signed : Float → String
  pub show : ℕ → String
  pub threshold : Float
  -- `((y - baseline) / baseline * 100) if baseline else 0`
  pub deviation : (y baseline : Float) → Float

-- `SERVICE_LABELS` and `SERVICE_COLORS` of a service
pub record ServiceStyle : Type 0 where
  pub service : String
  pub label : String
  pub color : String

abbrev pub service_styles : List ServiceStyle
service_styles =
    record { service = "guard-node"; label = "Guard"; color = "#2196F3" }
    ∷ record { service = "relay-node"; label = "Relay"; color = "#FF9800" }
    ∷ record { service = "exit-node"; label = "Exit"; color = "#F44336" }
    ∷ record { service = "directory-server"; label = "Directory"; color = "#9C27B0" }
    ∷ []

module _ {Float : Type 0} (texts : Texts Float) where
  -- An `ax` after `_style_axes`.
  abbrev pub style_axes : String → String → String → List (Artist Float) → Axes Float
  style_axes title x_label y_label artists = record {
    title = title;
    x_label = x_label;
    y_label = y_label;
    x_ticks = map texts.show relay_counts;
    artists = artists;
  }

  -- The loop that writes to each point.
  abbrev pub notes : (Float → String) → List (ℕ × Float) → List (Artist Float)
  notes label points = map (λ (p : ℕ × Float). annotate p (label p.1)) points

  unfoldable pub max_throughput : List (ℕ × Float) → Axes Float
  max_throughput rps =
      style_axes "Experiment 2 — Max Sustainable Throughput vs Relay Count" "Number of relay nodes"
        "Max throughput (req/s)"
        (plot rps "Max sustainable throughput" "#2196F3" ∷ notes texts.whole rps)

  unfoldable pub p95_at_ceiling : List (ℕ × Float) → Axes Float
  p95_at_ceiling p95 =
      style_axes "Experiment 2 — p95 Latency at Max Throughput vs Relay Count"
        "Number of relay nodes" "p95 latency (ms)"
        (plot p95 "p95 latency at max throughput" "#F44336"
          ∷ axhline texts.threshold "Threshold (500 ms)"
          ∷ notes (λ y. texts.whole y <> " ms") p95)

  unfoldable pub throughput_per_relay : List (ℕ × Float) → Float → Axes Float
  throughput_per_relay per_relay baseline =
      style_axes "Experiment 2 — Throughput per Relay Node vs Relay Count" "Number of relay nodes"
        "Throughput per relay node (req/s)"
        (plot per_relay "Throughput per relay node" "#2196F3"
          ∷ axhline baseline ("Linear reference (" <> texts.whole baseline <> " req/s per relay)")
          ∷ notes (λ y. texts.whole y <> "\n(" <> texts.signed (texts.deviation y baseline) <> "%)")
              per_relay)

  abbrev pub bar_of : ServiceStyle → List Float → Artist Float
  bar_of style heights =
      bar heights style.label style.color (map (λ y. texts.whole y <> "%") heights)

  -- The bars of each service, or a text if there is no data of the CPU.
  unfoldable pub cpu_artists : List (ServiceStyle × List Float) → List (Artist Float)
  cpu_artists [] = text "CloudWatch data not yet available" ∷ []
  cpu_artists (b ∷ bars) = map (λ (e : ServiceStyle × List Float). bar_of e.0 e.1) (b ∷ bars)

  unfoldable pub cpu_by_service : List ℕ → List (ServiceStyle × List Float) → Axes Float
  cpu_by_service counts bars = record {
    title = "Experiment 2 — CPU Utilisation per Service vs Relay Count";
    x_label = "Number of relay nodes";
    y_label = "Average CPU utilisation (%)";
    x_ticks = map texts.show counts;
    artists = cpu_artists bars;
  }
