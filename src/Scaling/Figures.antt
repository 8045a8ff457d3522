-- ===== src/Scaling/Figures.antt =====
-- experiments/scripts/generate_exp2_charts.py: the CPU data that it loads, the figures of its
-- charts, and its choices. Drawing and logging are left out.
pub mod Saved
use torr_bsds.Base.{
  ℕ, String, ◌<>◌, Bool, true, false, Option, none, some, List, [], ◌∷◌, ◌++◌, map, leb, str_eq,
  ◌&&◌, ◌||◌, ◌==◌, if◌then◌else◌,
}
use torr_bsds.Runtime.Json.{Json, num, Exc, Result, ok, err, get_or, system_exit}
use torr_bsds.Runtime.Exec.{
  Exec, Trace, called, get_object, write_file, put_object, pure, raise, lift, try, ◌>>=◌, ◌>>◌,
}
use torr_bsds.Runtime.Text.{ends_with, has_text}
use torr_bsds.Runtime.Sort.{sort}
use torr_bsds.Scaling.{
  Store, Summaries, s3_list_keys, load_summaries_from_s3, load_summaries_from_dir,
}
use torr_bsds.Scaling.Axes.{
  Axes, Texts, ServiceStyle, service_styles, max_throughput, p95_at_ceiling, cpu_by_service,
  throughput_per_relay,
}

-- A row of the metrics that CloudWatch was asked for.
pub record CpuRow (Float : Type 0) : Type 0 where
  pub metric : Option String
  pub service : String
  pub value : Float

-- A `DataFrame`: whether it has a column `metric`, and its rows.
pub record Frame (Float : Type 0) : Type 0 where
  pub has_metric : Bool
  pub rows : List (CpuRow Float)

-- The packages `pandas`, `matplotlib` and `boto3`, the file system and floating-point numbers.
pub record Host : Type 1 where
  pub Float : Type 0
  pub zero : Float
  -- A number of the JSON in arithmetic, which raises for what is none.
  pub number : Json → Result Float
  pub div : Float → ℕ → Float
  -- `round(values.mean(), 1)` of a column that begins so
  pub rounded_mean : Float → List Float → Float
  pub read_csv : List ℕ → Result (Frame Float)
  pub glob_all_services : String → Result (List (Frame Float))
  -- `isinstance(exc, (BotoCoreError, ClientError))`
  pub is_aws_error : Exc → Bool
  pub texts : Texts Float
  pub png : Axes Float → List ℕ
  pub write_file : Trace → String → List ℕ → Result (Unit {0})
  pub put_object : Trace → String → String → List ℕ → Result (Unit {0})

pub record Args : Type 0 where
  pub bucket : String
  pub local_dir : String
  pub out_dir : String

module _ (store : Store) (host : Host) where
  open host use {Float}

  unfoldable pub s3_read_csv : String → String → Exec (Frame Float)
  s3_read_csv bucket key = do
    body ← λ t. (store.get_object t bucket key, called (get_object bucket key) ∷ t)
    lift (host.read_csv body)

  -- `[k for k in keys if "all_services_" in k and k.endswith(".csv")]`
  unfoldable pub combined_keys : List String → List String
  combined_keys [] = []
  combined_keys (k ∷ keys) =
      let rest = combined_keys keys in
      if has_text "all_services_" k && ends_with k ".csv" then k ∷ rest else rest

  -- The loop over the keys; a file that AWS refuses is left out.
  unfoldable pub read_frames : String → List String → Exec (List (Frame Float))
  read_frames bucket [] = pure []
  read_frames bucket (key ∷ keys) = do
    frame ←
        try (do frame ← s3_read_csv bucket key; pure (frame ∷ []))
          (λ exc. if host.is_aws_error exc then pure [] else raise exc)
    frames ← read_frames bucket keys
    pure (frame ++ frames)

  abbrev is_cpu : Option String → Bool
  is_cpu none = false
  is_cpu (some metric) = str_eq metric "CPUUtilization"

  unfoldable pub cpu_rows : List (CpuRow Float) → List (CpuRow Float)
  cpu_rows [] = []
  cpu_rows (row ∷ rows) = let rest = cpu_rows rows in if is_cpu row.metric then row ∷ rest else rest

  -- `pd.concat`, which has each column that one of the frames has.
  unfoldable pub concat : List (Frame Float) → Frame Float
  concat [] = record { has_metric = false; rows = [] }
  concat (f ∷ frames) = record {
    has_metric = f.has_metric || (concat frames).has_metric;
    rows = f.rows ++ (concat frames).rows;
  }

  -- The rows of the CPU, if there is a column `metric`; of no frames, none.
  unfoldable pub only_cpu : List (Frame Float) → List (CpuRow Float)
  only_cpu frames = let df = concat frames in if df.has_metric then cpu_rows df.rows else df.rows

  unfoldable pub load_cpu_from_s3 : String → Exec (List (CpuRow Float))
  load_cpu_from_s3 bucket = do
    keys ← s3_list_keys store bucket "metrics"
    frames ← read_frames bucket (combined_keys keys)
    pure (only_cpu frames)

  unfoldable pub load_cpu_from_dir : String → Result (List (CpuRow Float))
  load_cpu_from_dir local_dir = elim (host.glob_all_services local_dir) [
    | err e ↦ err e
    | ok frames ↦ ok (only_cpu frames)
  ]

  -- `sorted(summaries)`, with what stands there
  abbrev pub by_count : Summaries → Summaries
  by_count summaries = sort (λ (a b : ℕ × Json). leb a.0 b.0) summaries

  -- `[summaries[c].get(key, 0) for c in counts]`, with the counts
  unfoldable pub values_of : String → Summaries → Result (List (ℕ × Float))
  values_of key [] = ok []
  values_of key ((count, ceiling) ∷ rest) = elim (get_or ceiling key (num 0)) [
    | err e ↦ err e
    | ok value ↦ elim (host.number value) [
      | err e ↦ err e
      | ok x ↦ elim (values_of key rest) [ err e ↦ err e | ok xs ↦ ok ((count, x) ∷ xs) ]
    ]
  ]

  -- `t / c if c else 0`
  unfoldable pub per_relay : List (ℕ × Float) → List (ℕ × Float)
  per_relay [] = []
  per_relay ((count, total) ∷ rest) =
      let others = per_relay rest in
      (count, if count == 0 then host.zero else host.div total count) ∷ others

  abbrev pub baseline_of : List (ℕ × Float) → Float
  baseline_of [] = host.zero
  baseline_of ((_, x) ∷ _) = x

  unfoldable pub values_of_service : String → List (CpuRow Float) → List Float
  values_of_service service [] = []
  values_of_service service (row ∷ rows) =
      let rest = values_of_service service rows in
      if str_eq row.service service then row.value ∷ rest else rest

  abbrev pub mean_or_zero : List Float → Float
  mean_or_zero [] = host.zero
  mean_or_zero (x ∷ l) = host.rounded_mean x l

  -- The same mean at each count; no bars if there are no rows.
  unfoldable pub cpu_bars : List (CpuRow Float) → Summaries → List (ServiceStyle × List Float)
  cpu_bars [] summaries = []
  cpu_bars (row ∷ rows) summaries =
      map
        (λ (style : ServiceStyle). (
          style,
          map (λ (s : ℕ × Json). mean_or_zero (values_of_service style.service (row ∷ rows)))
              (by_count summaries),
        ))
        service_styles

  abbrev pub counts_of : Summaries → List ℕ
  counts_of summaries = map (λ (s : ℕ × Json). s.0) (by_count summaries)

  -- `_save`; an upload that AWS refuses is logged
  unfoldable pub save : Args → String → Axes Float → Exec (Unit {0})
  save args filename chart = do
    write (args.out_dir <> "/" <> filename)
    if str_eq args.bucket ""
        then pure tt
        else try (put ("charts/experiment-2/" <> filename))
            (λ exc. if host.is_aws_error exc then pure tt else raise exc)
    where
      write : String → Exec (Unit {0})
      write path t =
          (host.write_file t path (host.png chart), called (write_file path (host.png chart)) ∷ t)

      put : String → Exec (Unit {0})
      put key t = (
        host.put_object t args.bucket key (host.png chart),
        called (put_object args.bucket key (host.png chart)) ∷ t,
      )

  -- The four charts.
  unfoldable pub save_charts : Args → Summaries → List (CpuRow Float) → Exec (Unit {0})
  save_charts args summaries cpu_df = do
    rps ← lift (values_of "rps" (by_count summaries))
    save args "exp2_max_throughput_vs_relays.png" (max_throughput host.texts rps)
    p95 ← lift (values_of "p95_ms" (by_count summaries))
    save args "exp2_p95_at_ceiling_vs_relays.png" (p95_at_ceiling host.texts p95)
    save args "exp2_cpu_by_service_vs_relays.png"
        (cpu_by_service host.texts (counts_of summaries) (cpu_bars cpu_df summaries))
    save args "exp2_throughput_per_relay.png"
        (throughput_per_relay host.texts (per_relay rps) (baseline_of (per_relay rps)))

  unfoldable pub load_data : Args → Exec (Summaries × List (CpuRow Float))
  load_data args =
      if str_eq args.local_dir ""
      then (do
        summaries ← load_summaries_from_s3 store args.bucket
        cpu_df ← load_cpu_from_s3 args.bucket
        pure (summaries, cpu_df))
      else (do
        summaries ← lift (load_summaries_from_dir store args.local_dir)
        cpu_df ← lift (load_cpu_from_dir args.local_dir)
        pure (summaries, cpu_df))

  -- `if not summaries: sys.exit(1)`, and the charts
  unfoldable pub chart_all : Args → Summaries × List (CpuRow Float) → Exec (Unit {0})
  chart_all args ([], cpu_df) = raise (system_exit 1)
  chart_all args (summary ∷ summaries, cpu_df) = save_charts args (summary ∷ summaries) cpu_df

  unfoldable pub main : Args → Exec (Unit {0})
  main args =
      if str_eq args.bucket "" && str_eq args.local_dir ""
      then raise (system_exit 1)
      else load_data args >>= chart_all args
