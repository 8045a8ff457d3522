-- ===== src/Upload.antt =====
-- The results that a load test stores when Locust quits: `upload_results_to_s3` of
-- experiments/locust/echo_baseline.py, circuit_1hop.py, circuit_3hop.py and
-- throughput_scaling.py, and `export_results` of experiments/experiment3/locustfile.py.
pub mod Stored
use torr_bsds.Base.{
  ℕ, String, ◌<>◌, Bool, Option, none, some, List, [], ◌∷◌, map, length, str_eq, if◌then◌else◌,
}
use torr_bsds.Runtime.Json.{Exc, Result, ok, err}
use torr_bsds.Runtime.Exec.{
  Exec, Trace, called, read_time, write_file, put_object, pure, raise, try, ◌>>=◌, ◌>>◌,
}
use torr_bsds.Load.Ramp.{Floats, Settings, StepRecord, Ramp}
use torr_bsds.Recovery.Task.{Row}

module _ (F : Floats) where
  open F use {Float, round}

  -- An entry of `environment.runner.stats.entries` with its key.
  pub record Entry : Type 0 where
    pub name : String
    pub method : String
    pub num_requests : ℕ
    pub num_failures : ℕ
    pub current_rps : Float
    pub p50 : Option Float
    pub p95 : Option Float
    pub p99 : Option Float
    pub avg_response_time : Float

  -- A row of the statistics; `label` is its `scenario`, or its `relay_count`.
  pub record StatRow (Label : Type 0) : Type 0 where
    pub timestamp : String
    pub label : Label
    pub name : String
    pub method : String
    pub requests : ℕ
    pub failures : ℕ
    pub rps : Float
    pub p50_ms : Option Float
    pub p95_ms : Option Float
    pub p99_ms : Option Float
    pub avg_ms : Float

  unfoldable pub stat_row : {Label : Type 0} → String → Label → Entry → StatRow Label
  stat_row timestamp label entry = record {
    timestamp = timestamp;
    label = label;
    name = entry.name;
    method = entry.method;
    requests = entry.num_requests;
    failures = entry.num_failures;
    rps = round entry.current_rps 3;
    p50_ms = entry.p50;
    p95_ms = entry.p95;
    p99_ms = entry.p99;
    avg_ms = round entry.avg_response_time 2;
  }

  pub record Summary : Type 0 where
    pub relay_count : ℕ
    pub timestamp : String
    pub ceiling : Option (StepRecord F)
    pub p95_threshold_ms : Float
    pub error_rate_threshold : Float
    pub total_steps_sampled : ℕ

  -- S3, the file system, the clock and the packages `csv` and `json`, outside the repository. A
  -- text is what a writer with the header makes of the rows.
  pub record Storage : Type 0 where
    pub put_object : Trace → String → String → List ℕ → Result (Unit {0})
    pub write_file : Trace → String → List ℕ → Result (Unit {0})
    -- `isinstance(exc, (BotoCoreError, ClientError))`
    pub is_aws_error : Exc → Bool
    pub timestamp : Trace → String
    pub scenario_csv : List (StatRow String) → List ℕ
    pub relay_csv : List (StatRow ℕ) → List ℕ
    pub steps_csv : List (StepRecord F) → List ℕ
    pub requests_csv : List Row → List ℕ
    pub summary_json : Summary → List ℕ

  module _ (storage : Storage) where
    unfoldable pub read_timestamp : Exec String
    read_timestamp t = (ok (storage.timestamp t), read_time ∷ t)

    -- `s3.put_object(…)` in a `try` that logs the errors of AWS
    unfoldable pub put_csv : String → String → List ℕ → Exec (Unit {0})
    put_csv bucket key body =
        try (λ t. (storage.put_object t bucket key body, called (put_object bucket key body) ∷ t))
          (λ exc. if storage.is_aws_error exc then pure tt else raise exc)

    -- `if rows:` and the upload of a text made of them
    unfoldable pub put_rows :
        {A : Type 0} → String → String → (List A → List ℕ) → List A → Exec (Unit {0})
    put_rows bucket key csv [] = pure tt
    put_rows bucket key csv (row ∷ rows) = put_csv bucket key (csv (row ∷ rows))

    -- The upload of a scenario, by its name.
    unfoldable pub upload_scenario : String → String → String → List Entry → Exec (Unit {0})
    upload_scenario scenario bucket prefix entries = if str_eq bucket "" then pure tt else (do
      timestamp ← read_timestamp
      put_rows bucket (prefix <> "/" <> timestamp <> "_stats.csv") storage.scenario_csv
          (map (stat_row timestamp scenario) entries))

    unfoldable pub upload_echo_baseline : String → String → List Entry → Exec (Unit {0})
    upload_echo_baseline = upload_scenario "direct"

    unfoldable pub upload_one_hop : String → String → List Entry → Exec (Unit {0})
    upload_one_hop = upload_scenario "1-hop"

    unfoldable pub upload_three_hops : String → String → List Entry → Exec (Unit {0})
    upload_three_hops = upload_scenario "3-hop"

    abbrev pub summary_of : Settings F → String → Ramp F → Summary
    summary_of c timestamp ramp = record {
      relay_count = c.relay_count;
      timestamp = timestamp;
      ceiling = ramp.ceiling_record;
      p95_threshold_ms = c.p95_threshold_ms;
      error_rate_threshold = c.error_rate_threshold;
      total_steps_sampled = length ramp.step_records;
    }

    -- `upload_results_to_s3` of the throughput test
    unfoldable pub upload_scaling :
        Settings F → String → String → Ramp F → List Entry → Exec (Unit {0})
    upload_scaling c bucket prefix ramp entries = do
      timestamp ← read_timestamp
      if str_eq bucket "" then pure tt else (do
        put_rows bucket (prefix <> "/" <> timestamp <> "_steps.csv") storage.steps_csv
            ramp.step_records
        put_csv bucket (prefix <> "/" <> timestamp <> "_summary.json")
            (storage.summary_json (summary_of c timestamp ramp))
        put_rows bucket (prefix <> "/" <> timestamp <> "_locust_stats.csv") storage.relay_csv
            (map (stat_row timestamp c.relay_count) entries))

    unfoldable pub write_csv : String → List ℕ → Exec (Unit {0})
    write_csv path text t = (storage.write_file t path text, called (write_file path text) ∷ t)

    abbrev pub mode_of : Bool → String
    mode_of health_check = if health_check then "with-predetection" else "no-predetection"

    -- `export_results`; `hops` is the text of `HOPS`
    unfoldable pub export_results :
        Bool → String → String → String → List Row → List Entry → Exec (Unit {0})
    export_results health_check hops bucket prefix [] entries = read_timestamp >> pure tt
    export_results health_check hops bucket prefix (row ∷ rows) entries = do
      timestamp ← read_timestamp
      let mode = mode_of health_check
      let text = storage.requests_csv (row ∷ rows)
      write_csv ("results/" <> mode <> "_" <> timestamp <> ".csv") text
      if str_eq bucket "" then pure tt else (do
        put_csv bucket (prefix <> "/" <> mode <> "/" <> timestamp <> "_requests.csv") text
        put_rows bucket (prefix <> "/" <> mode <> "/" <> timestamp <> "_stats.csv")
            storage.scenario_csv (map (stat_row timestamp (hops <> "-hop-" <> mode)) entries))
