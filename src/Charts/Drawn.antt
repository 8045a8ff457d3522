-- ===== src/Charts/Drawn.antt =====
-- experiments/experiment3/generate_charts.py: what its five charts show, and `main` with the
-- drawing. Sizes, transparency, fonts, grids and line styles are left out.
pub mod Rebuilds
pub mod Main
pub mod Modes
pub mod Written
pub mod Finished
pub mod Rows
use torr_bsds.Base.{
  ℕ, ◌+◌, ◌-◌, String, ◌<>◌, Option, none, some, List, [], ◌∷◌, ◌++◌, map, length, replicate,
}
use torr_bsds.Runtime.Json.{Result, ok, err, key_error}
use torr_bsds.Runtime.Fallible.{traverse, ◌>>=◌, ◌>>◌}
use torr_bsds.Charts.{
  Sample, earliest, compute_request_loss, compute_detection_time, compute_rps_timeline,
}
use torr_bsds.Charts.Run.{
  Host, Args, ℤ, difference, ByMode, find_mode, Request, samples, load_run, compute_rebuild_offsets,
}

abbrev pub colors : ByMode String
colors = ("no-predetection", "#F44336") ∷ ("with-predetection", "#4CAF50") ∷ []

abbrev pub labels : ByMode String
labels =
    ("no-predetection", "Without pre-detection") ∷ ("with-predetection", "With pre-detection") ∷ []

abbrev item : String → Option String → Result String
item mode none = err (key_error mode)
item mode (some s) = ok s

-- `COLORS[mode]` and `LABELS[mode]`
unfoldable pub color_of : String → Result String
color_of mode = item mode (find_mode mode colors)

unfoldable pub label_of : String → Result String
label_of mode = item mode (find_mode mode labels)

-- The modes of a dict, and its values.
abbrev pub modes_of : {A : Type 0} → ByMode A → List String
modes_of d = map (λ e. e.0) d

abbrev pub values_of : {A : Type 0} → ByMode A → List A
values_of d = map (λ e. e.1) d

module _ (host : Host) where
  open host use {Float}

  -- What a call of `ax` draws: a curve, points, bars with the texts over them, bars that lie from
  -- their left ends on, and a line across.
  pub data Artist : Type 0 where
    plot : (x y : List ℕ) (label color : String) → Artist
    scatter : (x : List ℕ) (y : List Float) (label color : String) → Artist
    bar : (labels : List String) (heights : List ℕ) (colors texts : List String) → Artist
    barh : (y : List ℕ) (width : List Float) (left : List ℤ) (color label : String) → Artist
    axvline : (x : ℤ) (color : String) (label : Option String) → Artist

  -- A chart with its file; ticks are `none` if they are not set.
  pub record Figure : Type 0 where
    pub file : String
    pub title : String
    pub x_label : Option String
    pub y_label : String
    pub y_ticks : Option (List ℕ × List String)
    pub artists : List Artist

  unfoldable pub rps_line : String × List (Request host) → Result Artist
  rps_line (mode, rows) =
      let (xs, ys) = compute_rps_timeline (samples host rows) in
      label_of mode >>= (λ label. color_of mode >>= (λ color. ok (plot xs ys label color)))

  unfoldable pub kill_line : String × ℤ → Result Artist
  kill_line (mode, offset) = do
    color ← color_of mode
    label ← label_of mode
    ok (axvline offset color (some ("Kill event (" <> label <> ")")))

  unfoldable pub chart_rps_timeline : ByMode (List (Request host)) → ByMode ℤ → Result Figure
  chart_rps_timeline data_by_mode kill_offset_by_mode = do
    lines ← traverse rps_line data_by_mode
    kills ← traverse kill_line kill_offset_by_mode
    ok (record {
      file = "exp3_rps_timeline.png";
      title = "Experiment 3: Throughput Over Time During Node Failure";
      x_label = some "Time (seconds)";
      y_label = "Requests / second";
      y_ticks = none;
      artists = lines ++ kills;
    })

  unfoldable pub bars_of : (ℕ → String) → ByMode ℕ → Result Artist
  bars_of text values = do
    colors ← traverse color_of (modes_of values)
    labels ← traverse label_of (modes_of values)
    ok (bar labels (values_of values) colors (map text (values_of values)))

  module _ (one_decimal show : ℕ → String) where
    -- `one_decimal` writes a time in seconds.
    unfoldable pub chart_detection_time : ByMode ℕ → Result Figure
    chart_detection_time detection_times = do
      bars ← bars_of (λ val. one_decimal val <> "s") detection_times
      ok (record {
        file = "exp3_detection_time.png";
        title = "Experiment 3: Failure Detection Time";
        x_label = none;
        y_label = "Detection Time (seconds)";
        y_ticks = none;
        artists = bars ∷ [];
      })

    unfoldable pub chart_request_loss : ByMode ℕ → Result Figure
    chart_request_loss request_losses = do
      bars ← bars_of show request_losses
      ok (record {
        file = "exp3_request_loss.png";
        title = "Experiment 3: Total Request Loss During Recovery";
        x_label = none;
        y_label = "Failed Requests";
        y_ticks = none;
        artists = bars ∷ [];
      })
