-- ===== src/Summary/Drawn.antt =====
-- experiments/scripts/generate_latency_charts.py: what its charts show. Drawing is left out.
use torr_bsds.Base.{String, ◌<>◌, Option, none, some, List, [], ◌∷◌, ◌++◌}
use torr_bsds.Runtime.Json.{Result, ok, err, type_error, system_exit}
use torr_bsds.Runtime.Fallible.{traverse, ◌>>=◌, ◌>>◌}
use torr_bsds.Summary.{Row, column, Ints, int_of, rows_for}

-- `float`, `os.makedirs` and the rows that `csv.DictReader` reads from a file.
pub record Host : Type 1 where
  pub Float : Type 0
  pub float : String → Result Float
  pub makedirs : String → Result (Unit {0})
  pub join : String → String → String
  pub read_rows : String → Result (List Row)

module _ (I : Ints) (host : Host) where
  abbrev float_of : Option String → Result host.Float
  float_of none = err type_error
  float_of (some s) = host.float s

  -- A curve: its label, the levels and the values.
  pub record Curve : Type 0 where
    pub label : String
    pub x : List I.Int
    pub y : List host.Float

  pub record Chart : Type 0 where
    pub output_path : String
    pub title : String
    pub x_label : String
    pub y_label : String
    pub curves : List Curve

  abbrev curve : String → List I.Int → List host.Float → Curve
  curve label x y = record { label = label; x = x; y = y }

  abbrev latency_figure : String → String → List Curve → Chart
  latency_figure output_path title curves = record {
    output_path = output_path;
    title = title;
    x_label = "Concurrent users";
    y_label = "Latency (ms)";
    curves = curves;
  }

  -- `[float(row[key]) for row in rows]`
  unfoldable pub floats_of : String → List Row → Result (List host.Float)
  floats_of key rows = traverse (λ row. column row key >>= float_of) rows

  -- `[int(row["concurrency"]) for row in rows]`
  unfoldable pub levels_of : List Row → Result (List I.Int)
  levels_of rows = traverse (λ row. column row "concurrency" >>= int_of I) rows

  unfoldable pub plot_latency : List Row → String → String → Result Chart
  plot_latency rows scenario output_path = do
    x ← levels_of rows
    p50 ← floats_of "p50_ms" rows
    p95 ← floats_of "p95_ms" rows
    p99 ← floats_of "p99_ms" rows
    ok (
        latency_figure output_path (scenario <> " latency vs concurrency")
          (curve "p50" x p50 ∷ curve "p95" x p95 ∷ curve "p99" x p99 ∷ []))

  -- Both curves are drawn over the levels of the direct rows.
  unfoldable pub plot_p95_comparison : List Row → List Row → String → Result Chart
  plot_p95_comparison direct_rows one_hop_rows output_path = do
    x ← levels_of direct_rows
    direct ← floats_of "p95_ms" direct_rows
    one_hop ← floats_of "p95_ms" one_hop_rows
    ok (
        latency_figure output_path "Direct vs one-hop p95 latency"
          (curve "direct p95" x direct ∷ curve "one-hop p95" x one_hop ∷ []))

  -- `if rows: plot_latency(…)`
  unfoldable pub latency_chart : List Row → String → String → Result (List Chart)
  latency_chart [] scenario output_path = ok []
  latency_chart (row ∷ rows) scenario output_path = do
    chart ← plot_latency (row ∷ rows) scenario output_path
    ok (chart ∷ [])

  -- `if direct_rows and one_hop_rows: plot_p95_comparison(…)`
  unfoldable pub comparison_chart : List Row → List Row → String → Result (List Chart)
  comparison_chart (direct ∷ direct_rows) (one_hop ∷ one_hop_rows) output_path = do
    chart ← plot_p95_comparison (direct ∷ direct_rows) (one_hop ∷ one_hop_rows) output_path
    ok (chart ∷ [])
  comparison_chart _ _ output_path = ok []

  -- `main` with `sys.argv[1:]`, and the exit with what it returns: the charts drawn.
  unfoldable pub main : List String → Result (List Chart)
  main (summary_csv ∷ output_dir ∷ []) = do
    rows ← host.read_rows summary_csv
    direct_rows ← rows_for I rows "direct"
    one_hop_rows ← rows_for I rows "one-hop"
    host.makedirs output_dir
    direct ←
        latency_chart direct_rows "direct"
          (host.join output_dir "direct-latency-vs-concurrency.png")
    one_hop ←
        latency_chart one_hop_rows "one-hop"
          (host.join output_dir "one-hop-latency-vs-concurrency.png")
    comparison ←
        comparison_chart direct_rows one_hop_rows (host.join output_dir "direct-vs-one-hop-p95.png")
    ok (direct ++ (one_hop ++ comparison))
  main _ = err (system_exit 1)
