-- ===== src/Metrics.antt =====
-- experiments/scripts/export_cloudwatch_metrics.py, which copies the metrics of the services
-- from CloudWatch to S3. The parsed arguments are a record, times are in microseconds since the
-- epoch, and logging is left out.
pub mod Exported
use torr_bsds.Base.{ℕ, String, ◌<>◌, Bool, List, [], ◌∷◌, ◌++◌, leb, str_eq, if◌then◌else◌}
use torr_bsds.Runtime.Json.{Exc, Result, ok, err, index_error, system_exit}
use torr_bsds.Runtime.Exec.{
  Exec, Trace, called, get_metric, put_object, pure, raise, lift, try, ◌>>=◌, ◌>>◌,
}
use torr_bsds.Runtime.Text.{split, strip, rstrip_char}
use torr_bsds.Load.Ramp.{Floats}

module _ (F : Floats) where
  open F use {Float, round}

  pub record Point : Type 0 where
    pub timestamp : String
    pub service : String
    pub metric : String
    pub unit : String
    pub value : Float

  -- An element of `response["MetricDataResults"]`.
  pub record MetricResult : Type 0 where
    pub timestamps : List ℕ
    pub values : List Float

  -- `boto3`'s clients and the packages `datetime` and `csv`.
  pub record Cloud : Type 0 where
    -- cluster, service, metric, start and end
    pub get_metric_data : Trace → String → String → String → ℕ → ℕ → Result (List MetricResult)
    pub put_object : Trace → String → String → List ℕ → Result (Unit {0})
    -- `isinstance(exc, (BotoCoreError, ClientError))`
    pub is_aws_error : Exc → Bool
    -- The date and the time of day that a text names, read as UTC.
    pub fromisoformat : String → Result ℕ
    -- a format and a time
    pub strftime : String → ℕ → String
    -- The header and a line for each row.
    pub points_csv : List Point → List ℕ

  pub record Args : Type 0 where
    pub start : String
    pub end : String
    pub bucket : String
    pub cluster : String
    pub prefix : String
    pub services : String

  abbrev pub metrics : List (String × String)
  metrics =
      ("CPUUtilization", "Percent")
      ∷ ("MemoryUtilization", "Percent")
      ∷ ("NetworkBytesIn", "Bytes")
      ∷ ("NetworkBytesOut", "Bytes")
      ∷ []

  -- The non-blank pieces between the commas, without the blanks around them.
  unfoldable pub named : List String → List String
  named [] = []
  named (s ∷ l) = let rest = named l in if str_eq (strip s) "" then rest else strip s ∷ rest

  module _ (cloud : Cloud) where
    unfoldable pub parse_utc : String → Result ℕ
    parse_utc ts = cloud.fromisoformat (rstrip_char "Z" ts)

    -- The loop over `zip(timestamps, values)`, which ends with the shorter one.
    unfoldable pub zip_points : String → String → String → List ℕ → List Float → List Point
    zip_points service metric unit (ts ∷ timestamps) (val ∷ values) =
        record {
          timestamp = cloud.strftime "%Y-%m-%dT%H:%M:%SZ" ts;
          service = service;
          metric = metric;
          unit = unit;
          value = round val 4;
        }
        ∷ zip_points service metric unit timestamps values
    zip_points service metric unit _ _ = []

    abbrev pub first_result : String → String → String → List MetricResult → Result (List Point)
    first_result service metric unit [] = err index_error
    first_result service metric unit (result ∷ _) =
        ok (zip_points service metric unit result.timestamps result.values)

    unfoldable pub fetch_metric : String → String → String → String → ℕ → ℕ → Exec (List Point)
    fetch_metric cluster service metric unit start end = do
      results ← λ t. (
        cloud.get_metric_data t cluster service metric start end,
        called (get_metric cluster service metric start end) ∷ t,
      )
      lift (first_result service metric unit results)

    -- What a `try` that logs the errors of AWS gives in their place.
    abbrev pub unless_aws_error : {A : Type 0} → A → Exc → Exec A
    unless_aws_error a exc = if cloud.is_aws_error exc then pure a else raise exc

    -- The loop over the metrics; one that cannot be fetched adds nothing.
    unfoldable pub fetch_metrics :
        String → String → ℕ → ℕ → List (String × String) → List Point → Exec (List Point)
    fetch_metrics cluster service start end [] all_rows = pure all_rows
    fetch_metrics cluster service start end ((metric, unit) ∷ rest) all_rows = do
      rows ← try (fetch_metric cluster service metric unit start end) (unless_aws_error [])
      fetch_metrics cluster service start end rest (all_rows ++ rows)

    unfoldable pub fetch_service_metrics : String → String → ℕ → ℕ → Exec (List Point)
    fetch_service_metrics cluster service start end =
        fetch_metrics cluster service start end metrics []

    unfoldable pub upload_to_s3 : String → String → List ℕ → Exec (Unit {0})
    upload_to_s3 bucket key body t =
        (cloud.put_object t bucket key body, called (put_object bucket key body) ∷ t)

    abbrev pub try_upload : String → String → List ℕ → Exec (Unit {0})
    try_upload bucket key body = try (upload_to_s3 bucket key body) (unless_aws_error tt)

    -- `if rows:` and the upload of a text made of them
    unfoldable pub upload_points : String → String → List Point → Exec (Unit {0})
    upload_points bucket key [] = pure tt
    upload_points bucket key (row ∷ rows) = try_upload bucket key (cloud.points_csv (row ∷ rows))

    abbrev pub window_of : ℕ → ℕ → String
    window_of start end =
        cloud.strftime "%Y%m%dT%H%M%S" start <> "_" <> cloud.strftime "%Y%m%dT%H%M%S" end

    abbrev pub key_of : Args → String → ℕ → ℕ → String
    key_of args name start end = args.prefix <> "/" <> name <> "_" <> window_of start end <> ".csv"

    -- The loop over the services, with the rows so far.
    unfoldable pub export_services : Args → ℕ → ℕ → List String → List Point → Exec (List Point)
    export_services args start end [] all_rows = pure all_rows
    export_services args start end (service ∷ services) all_rows = do
      rows ← fetch_service_metrics args.cluster service start end
      upload_points args.bucket (key_of args service start end) rows
      export_services args start end services (all_rows ++ rows)

    -- `main` from the loop on.
    unfoldable pub export_window : Args → ℕ → ℕ → Exec (Unit {0})
    export_window args start end = do
      all_rows ← export_services args start end (named (split "," args.services)) []
      upload_points args.bucket (key_of args "all_services" start end) all_rows

    unfoldable pub main : Args → Exec (Unit {0})
    main args = if str_eq args.bucket "" then raise (system_exit 1) else (do
      start ← lift (parse_utc args.start)
      end ← lift (parse_utc args.end)
      if leb end start then raise (system_exit 1) else export_window args start end)
