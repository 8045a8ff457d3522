-- ===== src/Scaling/Cpu/Drawn/Curves.antt =====
-- The chart of generate_exp2_cpu_chart.py, with windows and without.
use torr_bsds.Base.{ℕ, String, ◌<>◌, ◌≡◌, refl, ap, List, [], ◌∷◌, map}
use torr_bsds.Runtime.Json.{ok, err, value_error}
use torr_bsds.Runtime.Fallible.{traverse}
use torr_bsds.Runtime.Exec.{Trace, called, write_file}
use torr_bsds.Scaling.Windows.{Window, load_timestamps}
use torr_bsds.Scaling.Cpu.{Host, services, fill_series, main}
use torr_bsds.Scaling.Cpu.Series.{Answers, value, asked, fill_series-asked}
use torr_bsds.Scaling.Cpu.Drawn.{
  Style, styles, Curve, Figure, Pen, zip, curves_of, max_of, figure_of, path_in, draw_main,
}

module _ (host : Host) (pen : Pen host) (cluster out_dir : String)
    (points : String → String → ℕ → ℕ → List host.Float) where
  -- The points of a service: one for each window.
  abbrev pub points_of : List Window → String → List (ℕ × host.Float)
  points_of windows service =
      map (λ (w : Window). (w.relay_count, value host cluster points service w)) windows

  zip-points_of :
      (windows : List Window) (service : String)
      → zip host
          (map (λ (w : Window). w.relay_count) windows)
          (map (value host cluster points service) windows)
        ≡ points_of windows service
  unfolding zip
  zip-points_of [] service = refl
  zip-points_of (w ∷ windows) service =
      ap (λ l. (w.relay_count, value host cluster points service w) ∷ l)
        (zip-points_of windows service)

  -- A service's curve: its label and colour, its points, and at each point its percentage.
  abbrev pub curve_through : List Window → Style → Curve host
  curve_through windows style = record {
    label = style.label;
    color = style.color;
    points = points_of windows style.service;
    texts = map (λ (p : ℕ × host.Float). pen.text p.1 <> "%") (points_of windows style.service);
  }

  -- The greatest value of a service.
  abbrev highest : Window → List Window → String → host.Float
  highest w windows service =
      pen.greatest (value host cluster points service w)
        (map (value host cluster points service) windows)

  -- The chart of some windows: a curve for each style, a tick for each relay count, and room above
  -- the greatest of all values.
  abbrev pub figure_through : Window → List Window → Figure host
  figure_through w windows = record {
    title = "Experiment 2 — CPU Utilisation per Task vs Relay Count";
    x_label = "Number of relay nodes";
    y_label = "Avg CPU utilisation per task (%)";
    curves = map (curve_through (w ∷ windows)) styles;
    x_ticks = map (λ (w : Window). w.relay_count) (w ∷ windows);
    y_top = pen.room (
        pen.greatest (highest w windows "guard-node")
          (highest w windows "relay-node" ∷ highest w windows "exit-node" ∷ []));
  }

  -- What is drawn of these windows, or raised if there are none.
  abbrev pub Draws : List Window → List String → Trace → Type 0
  Draws [] lines t =
      draw_main host pen cluster out_dir lines t
      ≡ (err (value_error "max() arg is an empty sequence"), t)
  Draws (w ∷ windows) lines t = draw_main host pen cluster out_dir lines t ≡ (
    ok tt,
    called (write_file (path_in host pen out_dir) (pen.png (figure_through w windows)))
        ∷ asked host cluster points (w ∷ windows) t,
  )

  figure_of-figure_through :
      (w : Window) (windows : List Window)
      → figure_of host pen
          (map (λ (w : Window). w.relay_count) (w ∷ windows))
          (map (λ service. map (value host cluster points service) (w ∷ windows)) services)
        ≡ ok (figure_through w windows)
  unfolding figure_of max_of traverse curves_of
  figure_of-figure_through w windows =
      rw
        (
          zip-points_of (w ∷ windows) "guard-node",
          zip-points_of (w ∷ windows) "relay-node",
          zip-points_of (w ∷ windows) "exit-node",
        )
        refl

  main-none :
      (lines : List String) (t : Trace)
      → load_timestamps host.int host.fromisoformat lines ≡ ok []
      → main host cluster lines t ≡ (ok ([], [] ∷ [] ∷ [] ∷ []), t)
  unfolding main fill_series
  main-none lines t read = rw read refl

  figure_of-none :
      figure_of host pen [] ([] ∷ [] ∷ [] ∷ []) ≡ err (value_error "max() arg is an empty sequence")
  unfolding figure_of max_of traverse
  figure_of-none = refl

  main-asked :
      (lines : List String) (windows : List Window) (t : Trace)
      → Answers host cluster points
      → load_timestamps host.int host.fromisoformat lines ≡ ok windows
      → main host cluster lines t ≡ (
        ok (
          map (λ (w : Window). w.relay_count) windows,
          map (λ service. map (value host cluster points service) windows) services,
        ),
        asked host cluster points windows t,
      )
  unfolding main
  main-asked lines windows t answers read =
      rw (read, fill_series-asked host cluster points answers windows [] [] [] t) refl

  -- If CloudWatch always gives the same averages for a part of the past, the lines can be read as
  -- windows, and files can be written: for each window in order, CloudWatch is asked for what each
  -- of the three services used and reserved; then one file is written, with a chart that has a
  -- curve for each service, with its label and colour, one point for each window and its percentage
  -- at each point; and nothing else is done. Without any window nothing is asked or drawn, and
  -- `main` raises a `ValueError`.
  pub draw_main-Draws :
      (lines : List String) (windows : List Window) (t : Trace)
      → Answers host cluster points
      → load_timestamps host.int host.fromisoformat lines ≡ ok windows
      → pen.makedirs out_dir ≡ ok tt
      → ((t : Trace) (path : String) (body : List ℕ) → pen.write_file t path body ≡ ok tt)
      → Draws windows lines t
  unfolding draw_main
  draw_main-Draws lines [] t answers read made writes =
      rw (main-none lines t read, figure_of-none) refl
  draw_main-Draws lines (w ∷ windows) t answers read made writes =
      rw
        (
          main-asked lines (w ∷ windows) t answers read,
          figure_of-figure_through w windows,
          made,
          writes,
        )
        refl
