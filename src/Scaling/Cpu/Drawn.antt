-- ===== src/Scaling/Cpu/Drawn.antt =====
-- experiments/scripts/generate_exp2_cpu_chart.py: its chart, and `main` with the drawing. Sizes,
-- fonts, grids, markers and line styles are left out.
pub mod Curves
use torr_bsds.Base.{ℕ, String, ◌<>◌, List, [], ◌∷◌, map}
use torr_bsds.Runtime.Json.{Result, ok, err, value_error}
use torr_bsds.Runtime.Fallible.{traverse}
use torr_bsds.Runtime.Fallible as Fallible
use torr_bsds.Runtime.Exec.{Exec, Trace, called, write_file, lift, ◌>>=◌, ◌>>◌}
use torr_bsds.Scaling.Cpu.{Host, main}

-- A service with its label and its colour.
pub record Style : Type 0 where
  pub service : String
  pub label : String
  pub color : String

-- `SERVICE_LABELS` and `COLORS`, in the order of `SERVICES`
abbrev pub styles : List Style
styles =
    record { service = "guard-node"; label = "Guard node"; color = "#2196F3" }
    ∷ record { service = "relay-node"; label = "Relay node (per task)"; color = "#FF9800" }
    ∷ record { service = "exit-node"; label = "Exit node"; color = "#F44336" }
    ∷ []

module _ (host : Host) where
  open host use {Float}

  -- A curve through its points, each with its text.
  pub record Curve : Type 0 where
    pub label : String
    pub color : String
    pub points : List (ℕ × Float)
    pub texts : List String

  pub record Figure : Type 0 where
    pub title : String
    pub x_label : String
    pub y_label : String
    pub curves : List Curve
    pub x_ticks : List ℕ
    pub y_top : Float

  -- matplotlib's file of the chart, the file system, and floating-point numbers.
  pub record Pen : Type 0 where
    pub png : Figure → List ℕ
    pub makedirs : String → Result (Unit {0})
    pub write_file : Trace → String → List ℕ → Result (Unit {0})
    -- a percentage as a whole number
    pub text : Float → String
    -- the greatest number of a list that begins so
    pub greatest : Float → List Float → Float
    -- `y * 1.25 + 5`
    pub room : Float → Float

  -- `zip(relay_counts, vals)`
  unfoldable pub zip : List ℕ → List Float → List (ℕ × Float)
  zip (count ∷ counts) (x ∷ vals) = (count, x) ∷ zip counts vals
  zip _ _ = []

  module _ (pen : Pen) where
    abbrev pub curve_of : List ℕ → Style → List Float → Curve
    curve_of relay_counts style vals = record {
      label = style.label;
      color = style.color;
      points = zip relay_counts vals;
      texts = map (λ (p : ℕ × Float). pen.text p.1 <> "%") (zip relay_counts vals);
    }

    -- The loop over the services.
    unfoldable pub curves_of : List ℕ → List Style → List (List Float) → List Curve
    curves_of relay_counts (style ∷ rest) (vals ∷ series) =
        curve_of relay_counts style vals ∷ curves_of relay_counts rest series
    curves_of relay_counts _ _ = []

    -- `max(vals)`, which raises for an empty list
    unfoldable pub max_of : List Float → Result Float
    max_of [] = err (value_error "max() arg is an empty sequence")
    max_of (x ∷ vals) = ok (pen.greatest x vals)

    unfoldable pub figure_of : List ℕ → List (List Float) → Result Figure
    figure_of relay_counts series = Fallible.◌>>=◌ (traverse max_of series) (λ tops.
        Fallible.◌>>=◌ (max_of tops) (λ top. ok (record {
          title = "Experiment 2 — CPU Utilisation per Task vs Relay Count";
          x_label = "Number of relay nodes";
          y_label = "Avg CPU utilisation per task (%)";
          curves = curves_of relay_counts styles series;
          x_ticks = relay_counts;
          y_top = pen.room top;
        })))

    abbrev pub path_in : String → String
    path_in out_dir = out_dir <> "/exp2_cpu_by_service_vs_relays.png"

    -- `main` on the lines of the file of timestamps
    unfoldable pub draw_main : String → String → List String → Exec (Unit {0})
    draw_main cluster out_dir lines = do
      data_by_service ← main host cluster lines
      figure ← lift (figure_of data_by_service.0 data_by_service.1)
      lift (pen.makedirs out_dir)
      λ t. (
        pen.write_file t (path_in out_dir) (pen.png figure),
        called (write_file (path_in out_dir) (pen.png figure)) ∷ t,
      )
