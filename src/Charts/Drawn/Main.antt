-- ===== src/Charts/Drawn/Main.antt =====
-- `main` of experiments/experiment3/generate_charts.py.
use torr_bsds.Base.{ℕ, String, Option, none, some, List, [], ◌∷◌, ◌++◌}
use torr_bsds.Runtime.Json.{Result}
use torr_bsds.Runtime.Exec.{Exec, Trace, called, write_file, lift, pure, ◌>>=◌, ◌>>◌}
use torr_bsds.Charts.{Sample, earliest, compute_request_loss, compute_detection_time}
use torr_bsds.Charts.Run.{Host, Args, ℤ, difference, ByMode, find_mode, Request, samples, load_run}
use torr_bsds.Charts.Published.{Uploads, publish}
use torr_bsds.Charts.Drawn.{Figure, chart_rps_timeline, chart_detection_time, chart_request_loss}
use torr_bsds.Charts.Drawn.Rebuilds.{chart_latency_scatter, chart_rebuild_timeline_multi}

-- matplotlib's file of a chart, the file system, and the texts of numbers.
pub record Pen (host : Host) : Type 0 where
  pub png : Figure host → List ℕ
  pub write_file : Trace → String → List ℕ → Result (Unit {0})
  pub one_decimal : ℕ → String
  pub show : ℕ → String

module _ (host : Host) where
  -- What the loops of `main` add for a mode with a kill event.
  abbrev pub offset_of : String → Option ℕ → List Sample → ByMode ℤ
  offset_of mode (some kill_ts) (r ∷ rows) = (mode, difference kill_ts (earliest r rows)) ∷ []
  offset_of mode _ _ = []

  abbrev pub detection_of : String → Option ℕ → List Sample → ByMode ℕ
  detection_of mode (some kill_ts) rows = (mode, compute_detection_time rows kill_ts) ∷ []
  detection_of mode none rows = []

  unfoldable pub kill_offset_by_mode : ByMode ℕ → ByMode (List (Request host)) → ByMode ℤ
  kill_offset_by_mode times [] = []
  kill_offset_by_mode times ((mode, rows) ∷ data_by_mode) =
      offset_of mode (find_mode mode times) (samples host rows)
      ++ kill_offset_by_mode times data_by_mode

  unfoldable pub detection_times : ByMode ℕ → ByMode (List (Request host)) → ByMode ℕ
  detection_times times [] = []
  detection_times times ((mode, rows) ∷ data_by_mode) =
      detection_of mode (find_mode mode times) (samples host rows)
      ++ detection_times times data_by_mode

  unfoldable pub request_losses : ByMode (List (Request host)) → ByMode ℕ
  request_losses [] = []
  request_losses ((mode, rows) ∷ data_by_mode) =
      (mode, compute_request_loss (samples host rows)) ∷ request_losses data_by_mode

  module _ (pen : Pen host) (uploads : Uploads) where
    -- `fig.savefig(path)`
    unfoldable pub save_figure : String → Figure host → Exec (Unit {0})
    save_figure out_dir figure t =
        let path = uploads.join out_dir figure.file in
        (pen.write_file t path (pen.png figure), called (write_file path (pen.png figure)) ∷ t)

    unfoldable pub draw : String → Result (Figure host) → Exec (Unit {0})
    draw out_dir chart = lift chart >>= save_figure out_dir

    -- The charts in the order of `main`, which draws one after another.
    unfoldable pub charts : ByMode ℕ → ByMode (List (Request host)) → List (Result (Figure host))
    charts times data_by_mode =
        chart_rps_timeline host data_by_mode (kill_offset_by_mode times data_by_mode)
        ∷ chart_detection_time host pen.one_decimal pen.show (detection_times times data_by_mode)
        ∷ chart_request_loss host pen.one_decimal pen.show (request_losses data_by_mode)
        ∷ chart_latency_scatter host data_by_mode (kill_offset_by_mode times data_by_mode)
        ∷ chart_rebuild_timeline_multi host data_by_mode times
        ∷ []

    unfoldable pub draw_charts : String → List (Result (Figure host)) → Exec (Unit {0})
    draw_charts out_dir [] = pure tt
    draw_charts out_dir (chart ∷ rest) = do draw out_dir chart; draw_charts out_dir rest

    -- `main`, with `args.bucket`
    unfoldable pub main : Args → String → Exec (Unit {0})
    main args bucket = do
      loaded ← lift (load_run host args)
      draw_charts args.out_dir (charts loaded.0 loaded.1)
      publish uploads args.out_dir bucket
