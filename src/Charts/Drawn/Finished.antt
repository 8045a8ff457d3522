-- ===== src/Charts/Drawn/Finished.antt =====
-- The end of `main` in generate_charts.py of experiment 3.
use torr_bsds.Base.{ℕ, String, ◌≡◌, refl, sym, List, [], ◌∷◌, map, inl, inr, Bool-cases, str_eq}
use torr_bsds.Runtime.Json.{Result, ok, err}
use torr_bsds.Runtime.Exec.{Trace, called, write_file, ok-inj, Outcome-cases}
use torr_bsds.Runtime.Fallible.{traverse, >>=-returned}
use torr_bsds.Charts.Run.{Host, Args, ByMode, Request, load_run}
use torr_bsds.Charts.Published.{Uploads, chart_names, upload_all, upload_to_s3, publish}
use torr_bsds.Charts.Drawn.{Figure}
use torr_bsds.Charts.Drawn.Main.{Pen, save_figure, draw, charts, draw_charts, main}
use torr_bsds.Charts.Drawn.Modes.{load_run-IsKnown}
use torr_bsds.Charts.Drawn.Written.{charts-IsMade}

module _ (host : Host) (pen : Pen host) (uploads : Uploads) where
  -- The figures are written one after another.
  abbrev pub written : String → List (Figure host) → Trace → Trace
  written out_dir [] t = t
  written out_dir (figure ∷ figures) t =
      written out_dir figures
        (called (write_file (uploads.join out_dir figure.file) (pen.png figure)) ∷ t)

  -- A file can always be written.
  abbrev pub Writes : Type 0
  Writes = (t : Trace) (path : String) (body : List ℕ) → pen.write_file t path body ≡ ok tt

  draw_charts-written :
      (out_dir : String) (made : List (Result (Figure host))) (figures : List (Figure host))
      (t : Trace)
      → Writes
      → traverse (λ chart. chart) made ≡ ok figures
      → draw_charts host pen uploads out_dir made t ≡ (ok tt, written out_dir figures t)
  unfolding draw_charts traverse draw save_figure
  draw_charts-written out_dir [] figures t writes e = rw (sym (ok-inj e)) refl
  draw_charts-written out_dir (ok figure ∷ made) figures t writes e =
      let (rest, es, same) = >>=-returned (traverse (λ chart. chart) made) _ e in
      rw (writes t (uploads.join out_dir figure.file) (pen.png figure), sym (ok-inj same))
        (draw_charts-written out_dir made rest _ writes es)
  draw_charts-written out_dir (err x ∷ made) figures t writes e = cc

  -- The upload raises nothing.
  publish-ok :
      (out_dir bucket : String) (t : Trace)
      → publish uploads out_dir bucket t ≡ (ok tt, (publish uploads out_dir bucket t).1)
  unfolding publish upload_to_s3
  publish-ok out_dir bucket t = elim (Bool-cases (str_eq bucket "")) [
    | inl none_given ↦ rw none_given refl
    | inr named ↦
        elim (Outcome-cases
          (upload_all uploads bucket (map (uploads.join out_dir) chart_names) t)) [
            | inl (_, u, e) ↦ rw (named, e) refl
            | inr (x, u, e) ↦ rw (named, e) refl
          ]
  ]

  -- Once the kill times and the rows are loaded, and if files can be written, each of the five
  -- charts is made: no mode is without its colour and label, whatever files were found. All five
  -- are written, in the order and under the names in which their paths are then uploaded, and `main`
  -- returns, also if the upload fails.
  pub main-draws :
      (args : Args) (bucket : String) (times : ByMode ℕ)
      (data_by_mode : ByMode (List (Request host))) (t : Trace)
      → load_run host args ≡ ok (times, data_by_mode)
      → Writes
      → (figures : List (Figure host)) × (traverse
            (λ chart. chart)
            (charts host pen uploads times data_by_mode)
          ≡ ok figures)
        × (map (λ f. f.file) figures ≡ chart_names)
        × (main host pen uploads args bucket t
            ≡ (ok tt, (publish uploads args.out_dir bucket (written args.out_dir figures t)).1))
  unfolding main
  main-draws args bucket times data_by_mode t loaded writes =
      let (figures, made, named) =
        charts-IsMade host pen uploads times data_by_mode
          (load_run-IsKnown host args times data_by_mode loaded) in
      (
        figures,
        made,
        named,
        rw
            (
              loaded,
              draw_charts-written args.out_dir (charts host pen uploads times data_by_mode) figures
                  t writes made,
            )
            (publish-ok args.out_dir bucket (written args.out_dir figures t)),
      )
