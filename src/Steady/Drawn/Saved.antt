-- ===== src/Steady/Drawn/Saved.antt =====
-- Which charts generate_exp1_charts.py saves.
use torr_bsds.Base.{
  ℕ, String, ◌<>◌, ◌≡◌, refl, inl, inr, List, ◌∷◌, str_eq, if◌then◌else◌, Bool-cases,
}
use torr_bsds.Runtime.Json.{ok}
use torr_bsds.Runtime.Exec.{Trace, called, write_file, put_object, Result-cases}
use torr_bsds.Steady.{Floats, Point}
use torr_bsds.Steady.Drawn.{
  Chart, Host, Args, Scenarios, chart_latency, chart_throughput, chart_hop_cost, load_all_scenarios,
  save, main,
}

module _ (F : Floats) (host : Host F) (args : Args F) where
  -- A file can always be written.
  abbrev pub Writes : Type 0
  Writes = (t : Trace) (path : String) (body : List ℕ) → host.write_file t path body ≡ ok tt

  abbrev written : String → Chart F → Trace → Trace
  written filename chart t =
      called (write_file (args.out_dir <> "/" <> filename) (host.png chart)) ∷ t

  -- A chart is written, and put to S3 if there is a bucket.
  abbrev pub saved : String → Chart F → Trace → Trace
  saved filename chart t =
      if str_eq args.bucket ""
      then written filename chart t
      else called (put_object args.bucket ("charts/experiment-1/" <> filename) (host.png chart))
        ∷ written filename chart t

  save-saved :
      Writes
      → (filename : String) (chart : Chart F) (t : Trace)
      → save F host args filename chart t ≡ (ok tt, saved filename chart t)
  unfolding save
  save-saved writes filename chart t = elim (Bool-cases (str_eq args.bucket "")) [
    | inl no_bucket ↦
        rw (writes t (args.out_dir <> "/" <> filename) (host.png chart), no_bucket) refl
    | inr named ↦
        let key = "charts/experiment-1/" <> filename in
        elim (Result-cases
          (host.put_object (written filename chart t) args.bucket key (host.png chart))) [
            | inl (_, e) ↦
                rw (writes t (args.out_dir <> "/" <> filename) (host.png chart), named, e) refl
            | inr (x, e) ↦
                rw (writes t (args.out_dir <> "/" <> filename) (host.png chart), named, e) refl
          ]
  ]

  -- Once the histories of the three scenarios are read, and if files can be written, all four charts
  -- are written, in order and each, if there is a bucket, then put to S3; no upload that fails, with
  -- whatever exception, keeps a later chart from being saved, and `main` returns.
  pub main-saved :
      (scenarios : Scenarios F) (t u : Trace)
      → Writes
      → load_all_scenarios F host args.results_dir t ≡ (ok scenarios, u)
      → main F host args t ≡ (
        ok tt,
        saved "exp1_throughput_vs_concurrency.png" (chart_throughput F scenarios) (
            saved "exp1_hop_latency_cost.png" (chart_hop_cost F host scenarios) (
              saved "exp1_p95_latency_vs_concurrency.png"
                (chart_latency F (λ (p : Point F). p.p95) "95" scenarios)
                (saved "exp1_p50_latency_vs_concurrency.png"
                  (chart_latency F (λ (p : Point F). p.p50) "50" scenarios)
                  u))),
      )
  unfolding main
  main-saved scenarios t u writes loaded =
      rw
        (
          loaded,
          save-saved writes "exp1_p50_latency_vs_concurrency.png",
          save-saved writes "exp1_p95_latency_vs_concurrency.png",
          save-saved writes "exp1_hop_latency_cost.png",
          save-saved writes "exp1_throughput_vs_concurrency.png",
        )
        refl
