-- ===== src/Scaling/Figures/Saved.antt =====
-- Which charts are saved.
use torr_bsds.Base.{ℕ, String, ◌<>◌, ◌≡◌, refl, true, false, inl, inr, List, [], ◌∷◌, str_eq}
use torr_bsds.Runtime.Json.{Exc, ok, err}
use torr_bsds.Runtime.Exec.{Trace, called, write_file, put_object, Result-cases}
use torr_bsds.Scaling.{Store, Summaries}
use torr_bsds.Scaling.Axes.{
  Axes, max_throughput, p95_at_ceiling, cpu_by_service, throughput_per_relay,
}
use torr_bsds.Scaling.Figures.{
  CpuRow, Host, Args, counts_of, by_count, values_of, per_relay, baseline_of, cpu_bars, save,
  save_charts, load_data, chart_all, main,
}

module _ (store : Store) (host : Host) (args : Args) where
  -- A file can always be written, and storing an object succeeds or raises an error of AWS.
  pub record Stores : Type 0 where
    pub writing : (t : Trace) (path : String) (body : List ℕ) → host.write_file t path body ≡ ok tt
    pub storing :
        (t : Trace) (bucket key : String) (body : List ℕ) (e : Exc)
        → host.put_object t bucket key body ≡ err e
        → host.is_aws_error e ≡ true

  -- A chart is written, and then put to S3.
  abbrev pub saved : String → Axes host.Float → Trace → Trace
  saved filename chart t =
      called (put_object args.bucket ("charts/experiment-2/" <> filename) (host.png chart))
      ∷ called (write_file (args.out_dir <> "/" <> filename) (host.png chart))
      ∷ t

  save-saves :
      Stores
      → str_eq args.bucket "" ≡ false
      → (filename : String) (chart : Axes host.Float) (t : Trace)
      → save store host args filename chart t ≡ (ok tt, saved filename chart t)
  unfolding save
  save-saves stores named filename chart t =
      let path = args.out_dir <> "/" <> filename in
      let key = "charts/experiment-2/" <> filename in
      let body = host.png chart in
      let u : Trace = called (write_file path body) ∷ t in
      elim (Result-cases (host.put_object u args.bucket key body)) [
        | inl (_, stored) ↦ rw (stores.writing t path body, named, stored) refl
        | inr (e, failed) ↦
            rw
              (
                stores.writing t path body,
                named,
                failed,
                stores.storing u args.bucket key body e failed,
              )
              refl
      ]

  -- With a bucket, files that can be written, and nothing but errors of AWS in storing: once the
  -- data is loaded, has a summary, and the throughputs and latencies in it are numbers, all four
  -- charts are written and put to S3, in order, each also if AWS refused one before; and `main`
  -- returns.
  pub main-saves :
      (summaries : Summaries) (cpu_df : List (CpuRow host.Float)) (rps p95 : List (ℕ × host.Float))
      (t u : Trace)
      → Stores
      → str_eq args.bucket "" ≡ false
      → load_data store host args t ≡ (ok (summaries, cpu_df), u)
      → ¬ (summaries ≡ [])
      → values_of store host "rps" (by_count store host summaries) ≡ ok rps
      → values_of store host "p95_ms" (by_count store host summaries) ≡ ok p95
      → main store host args t ≡ (
        ok tt,
        saved "exp2_throughput_per_relay.png"
            (throughput_per_relay host.texts
              (per_relay store host rps)
              (baseline_of store host (per_relay store host rps)))
            (saved "exp2_cpu_by_service_vs_relays.png"
              (cpu_by_service host.texts
                (counts_of store host summaries)
                (cpu_bars store host cpu_df summaries))
              (saved "exp2_p95_at_ceiling_vs_relays.png"
                (p95_at_ceiling host.texts p95)
                (saved "exp2_max_throughput_vs_relays.png" (max_throughput host.texts rps) u))),
      )
  unfolding main chart_all save_charts
  main-saves [] cpu_df rps p95 t u stores named loaded full a b = absurd (full refl)
  main-saves (s ∷ summaries) cpu_df rps p95 t u stores named loaded full a b =
      let save_one = save-saves stores named in
      rw
        (
          named,
          loaded,
          a,
          b,
          save_one "exp2_max_throughput_vs_relays.png" (max_throughput host.texts rps),
          save_one "exp2_p95_at_ceiling_vs_relays.png" (p95_at_ceiling host.texts p95),
          save_one "exp2_cpu_by_service_vs_relays.png" (
              cpu_by_service host.texts (counts_of store host (s ∷ summaries))
                (cpu_bars store host cpu_df (s ∷ summaries))),
          save_one "exp2_throughput_per_relay.png",
        )
        refl
