-- ===== src/Upload/Stored.antt =====
-- What the tests store, also where S3 refuses some of it.
use torr_bsds.Base.{
  ℕ, String, ◌<>◌, Bool, true, false, List, [], ◌∷◌, ◌≡◌, refl, map, str_eq, inl, inr,
}
use torr_bsds.Runtime.Json.{Exc, ok, err}
use torr_bsds.Runtime.Exec.{Trace, called, read_time, write_file, put_object, Result-cases}
use torr_bsds.Load.Ramp.{Floats, Settings, Ramp}
use torr_bsds.Recovery.Task.{Row}
use torr_bsds.Upload.{
  Entry, stat_row, Storage, read_timestamp, put_csv, put_rows, upload_scenario, summary_of,
  upload_scaling, write_csv, mode_of, export_results,
}

-- The one upload of a text made of rows, if there are any.
abbrev pub put_of : {A : Type 0} → String → String → (List A → List ℕ) → List A → Trace → Trace
put_of bucket key csv [] t = t
put_of bucket key csv (row ∷ rows) t = called (put_object bucket key (csv (row ∷ rows))) ∷ t

module _ (F : Floats) (storage : Storage F) where
  -- Storing an object succeeds or raises an error of AWS.
  abbrev pub RaisesAws : Type 0
  RaisesAws =
      (t : Trace) (bucket key : String) (body : List ℕ) (e : Exc)
      → storage.put_object t bucket key body ≡ err e
      → storage.is_aws_error e ≡ true

  put_csv-tried :
      RaisesAws
      → (bucket key : String) (body : List ℕ) (t : Trace)
      → put_csv F storage bucket key body t ≡ (ok tt, called (put_object bucket key body) ∷ t)
  unfolding put_csv
  put_csv-tried aws bucket key body t = elim (Result-cases (storage.put_object t bucket key body)) [
    | inl (_, stored) ↦ rw stored refl
    | inr (e, failed) ↦ rw (failed, aws t bucket key body e failed) refl
  ]

  put_rows-tried :
      {A : Type 0}
      → RaisesAws
      → (bucket key : String) (csv : List A → List ℕ) (rows : List A) (t : Trace)
      → put_rows F storage bucket key csv rows t ≡ (ok tt, put_of bucket key csv rows t)
  unfolding put_rows
  put_rows-tried aws bucket key csv [] t = refl
  put_rows-tried aws bucket key csv (row ∷ rows) t =
      put_csv-tried aws bucket key (csv (row ∷ rows)) t

  -- With a bucket, and if storing raises nothing but errors of AWS, a scenario's upload puts
  -- one object, of a row for each entry of the statistics, or nothing if there is no entry,
  -- and returns even if AWS refuses the object.
  pub upload_scenario-stores :
      (scenario bucket prefix : String) (entries : List (Entry F)) (t : Trace)
      → RaisesAws
      → str_eq bucket "" ≡ false
      → upload_scenario F storage scenario bucket prefix entries t ≡ (
        ok tt,
        put_of bucket
            (prefix <> "/" <> storage.timestamp t <> "_stats.csv")
            storage.scenario_csv
            (map (stat_row F (storage.timestamp t) scenario) entries)
            (read_time ∷ t),
      )
  unfolding upload_scenario read_timestamp
  upload_scenario-stores scenario bucket prefix entries t aws named =
      rw
        (
          named,
          put_rows-tried aws bucket _ storage.scenario_csv
              (map (stat_row F (storage.timestamp t) scenario) entries) (read_time ∷ t),
        )
        refl

  -- With a bucket, and if storing raises nothing but errors of AWS, the throughput test puts
  -- the steps if any was sampled, then the summary with the ceiling, then the statistics if
  -- there are any: each is tried even if AWS refused one before, and the upload returns.
  pub upload_scaling-stores :
      (c : Settings F) (bucket prefix : String) (ramp : Ramp F) (entries : List (Entry F))
      (t : Trace)
      → RaisesAws
      → str_eq bucket "" ≡ false
      → let now = storage.timestamp t in
        upload_scaling F storage c bucket prefix ramp entries t ≡ (
          ok tt,
          put_of bucket
              (prefix <> "/" <> now <> "_locust_stats.csv")
              storage.relay_csv
              (map (stat_row F now c.relay_count) entries)
              (called (
                  put_object bucket
                    (prefix <> "/" <> now <> "_summary.json")
                    (storage.summary_json (summary_of F storage c now ramp)))
                ∷ put_of bucket
                    (prefix <> "/" <> now <> "_steps.csv")
                    storage.steps_csv
                    ramp.step_records
                    (read_time ∷ t)),
        )
  unfolding upload_scaling read_timestamp
  upload_scaling-stores c bucket prefix ramp entries t aws named =
      rw
        (
          named,
          put_rows-tried aws bucket (prefix <> "/" <> storage.timestamp t <> "_steps.csv")
              storage.steps_csv ramp.step_records (read_time ∷ t),
          put_csv-tried aws bucket (prefix <> "/" <> storage.timestamp t <> "_summary.json"),
          put_rows-tried aws bucket (prefix <> "/" <> storage.timestamp t <> "_locust_stats.csv")
              storage.relay_csv (map (stat_row F (storage.timestamp t) c.relay_count) entries),
        )
        refl

  -- With a bucket and at least one row, if the local file can be written and storing raises
  -- nothing but errors of AWS, the failure test writes its rows to the file, then puts the
  -- same text to S3, and then the statistics if there are any, whatever AWS says to the
  -- first; and it returns.
  pub export_results-stores :
      (health_check : Bool) (hops bucket prefix : String) (row : Row) (rows : List Row)
      (entries : List (Entry F)) (t : Trace)
      → RaisesAws
      → str_eq bucket "" ≡ false
      → let now = storage.timestamp t in
        let mode = mode_of F storage health_check in
        let text = storage.requests_csv (row ∷ rows) in
        let path = "results/" <> mode <> "_" <> now <> ".csv" in
        storage.write_file (read_time ∷ t) path text ≡ ok tt
        → export_results F storage health_check hops bucket prefix (row ∷ rows) entries t ≡ (
          ok tt,
          put_of bucket
              (prefix <> "/" <> mode <> "/" <> now <> "_stats.csv")
              storage.scenario_csv
              (map (stat_row F now (hops <> "-hop-" <> mode)) entries)
              (called
                  (put_object bucket (prefix <> "/" <> mode <> "/" <> now <> "_requests.csv") text)
                ∷ called (write_file path text)
                ∷ read_time
                ∷ t),
        )
  unfolding export_results read_timestamp write_csv
  export_results-stores health_check hops bucket prefix row rows entries t aws named written =
      let now = storage.timestamp t in
      let mode = mode_of F storage health_check in
      rw
        (
          named,
          written,
          put_csv-tried aws bucket (prefix <> "/" <> mode <> "/" <> now <> "_requests.csv"),
          put_rows-tried aws bucket (prefix <> "/" <> mode <> "/" <> now <> "_stats.csv")
              storage.scenario_csv (map (stat_row F now (hops <> "-hop-" <> mode)) entries),
        )
        refl
