-- ===== src/Tests/Load.antt =====
-- The theorems on the load tests and the failure injection, at concrete inputs.
use torr_bsds.Base.{
  length, ◌⊎◌, ℕ, ◌*◌, ◌/◌, String, ◌<>◌, Bool, true, false, Option, none, some, List, [], ◌∷◌, ◌≡◌,
  refl, All, get_elem?, arith, ltb, leb, str_eq, map,
}
use mathlib.Core.Option
use torr_bsds.Runtime.Json.{
  Json, str, arr, obj, cons, nil, end, field, Exc, ok, err, index, get_or, truthy, as_str, lookup,
}
use torr_bsds.Runtime.Exec.{
  Trace, called, list_tasks, describe_tasks, stop_task, read_time, put_object, write_file,
  made_uuid,
}
use torr_bsds.Load.Shape.{second, stepped_tick}
use torr_bsds.Load.Shape.Stages.{target, stepped_tick-stage}
use torr_bsds.Load.Ramp.{Floats, IsOrdered, Stats, Settings, start}
use torr_bsds.Load.Ramp.Records.{IsHistory, run, run-IsHistory}
use torr_bsds.Load.Ramp.Room.{HasRoom, run-HasRoom}
use torr_bsds.Load.Circuit.{echo_request, hop_name, run_circuit}
use torr_bsds.Load.Circuit.Reports.{Reported, run_circuit-reports}
use torr_bsds.Kill.{
  Aws, Args, find_running_task, main, kill_task, kill_found, kill_if_found, wait, read_now,
  save_event, node_id_of_containers, after_slash,
}
use torr_bsds.Kill.Outcome.{stops, IsHandled, main-ok}
use torr_bsds.Recovery.Task.{Row}
use torr_bsds.Upload.{Entry, Storage, stat_row, export_results}
use torr_bsds.Upload.Stored.{put_of, RaisesAws, export_results-stores}
use torr_bsds.Charts.{Sample, compute_request_loss, compute_detection_time, compute_rps_timeline}
use torr_bsds.Charts.Timeline.{sum, compute_rps_timeline-sum}
use torr_bsds.Charts.Failures.{IsDetection, compute_detection_time-IsDetection}
use torr_bsds.Tests.Sample.{env}

-- Whole numbers in the place of floating-point ones.
abbrev pub whole : Floats
whole = record {
  Float = ℕ;
  le = leb;
  gt = λ a b. ltb b a;
  zero = 0;
  ratio = λ a b. a / b;
  round = λ a n. a;
}

whole-IsOrdered : IsOrdered whole
whole-IsOrdered = record { gt-le = λ a b. ground arith }

abbrev pub settings : Settings whole
settings = record {
  relay_count = 2;
  min_users = 10;
  max_users = 30;
  step_size = 10;
  step_duration = 30;
  p95_threshold_ms = 500;
  error_rate_threshold = 0;
}

abbrev stats : ℕ → Stats whole
stats p95 = record {
  num_requests = 100;
  num_failures = 0;
  current_rps = 9;
  p50 = some 100;
  p95 = some p95;
  p99 = some 900;
}

abbrev pub ticks : List (ℕ × Option (Stats whole))
ticks = (0, none) ∷ (31 * second, some (stats 400)) ∷ (61 * second, some (stats 700)) ∷ []

run-IsHistory_example :
    IsHistory whole whole-IsOrdered settings (run whole settings ticks (start whole))
run-IsHistory_example = run-IsHistory whole whole-IsOrdered settings ticks

run-HasRoom_example :
    All (HasRoom whole settings) (run whole settings ticks (start whole)).step_records
run-HasRoom_example = run-HasRoom whole settings ticks

stepped_tick-stage_example :
    stepped_tick (10 ∷ 50 ∷ []) 60 (61 * second)
    ≡ Option.map target (get_elem? (10 ∷ 50 ∷ []) (61 * second / (60 * second)))
stepped_tick-stage_example = stepped_tick-stage (10 ∷ 50 ∷ []) 60 (61 * second) (omega arith)

run_circuit-reports_example :
    Reported env
      (hop_name env 3)
      3
      "http://d"
      (env.uuid [])
      (echo_request "http://echo")
      (made_uuid ∷ [])
      (run_circuit env 3 "http://d" "http://echo" [])
run_circuit-reports_example = run_circuit-reports env 3 "http://d" "http://echo" []

-- One relay task runs, and ECS stops it when asked.
abbrev pub aws : Aws
aws = record {
  list_tasks = λ _ _ _. ok (obj (field "taskArns" (arr (cons (str "a/b/7") nil)) end));
  describe_tasks = λ _ _ _.
      ok (obj (field "tasks" (arr (cons (obj (field "taskArn" (str "a/b/7") end)) nil)) end));
  stop_task = λ _ _ _. ok tt;
  is_aws_error = λ _. true;
  now = λ _. 5000;
  isoformat = λ _. "1970";
  event_text = λ _. [];
  write_file = λ _ _ _. ok tt;
}

abbrev args : Bool → Args
args dry = record { cluster = "c"; service = "relay"; delay = 0; output = ""; dry_run = dry }

abbrev found_after : Trace
found_after = called (describe_tasks "c" "a/b/7") ∷ called (list_tasks "c" "relay") ∷ []

kills : main aws (args false) [] ≡ (ok tt, called (stop_task "c" "7") ∷ read_time ∷ found_after)
unfolding main find_running_task kill_if_found kill_found kill_task wait read_now save_event
    node_id_of_containers after_slash index get_or truthy as_str lookup
kills = refl

main-ok_example :
    (task_id : String) × (node_id : Json) × (v : Trace) × (find_running_task aws "c" "relay" []
      ≡ (ok (some (task_id, node_id)), v))
    × (str_eq task_id "" ≡ false)
    × IsHandled aws
        (args false)
        task_id
        (stops [])
        (stops (called (stop_task "c" "7") ∷ read_time ∷ found_after))
main-ok_example =
    main-ok aws (args false) [] (called (stop_task "c" "7") ∷ read_time ∷ found_after) kills

-- S3 refuses everything.
abbrev storage : Storage whole
storage = record {
  put_object = λ _ _ _ _. err (Exc.library "denied");
  write_file = λ _ _ _. ok tt;
  is_aws_error = λ _. true;
  timestamp = λ _. "now";
  scenario_csv = λ _. 1 ∷ [];
  relay_csv = λ _. 2 ∷ [];
  steps_csv = λ _. 3 ∷ [];
  requests_csv = λ _. 4 ∷ [];
  summary_json = λ _. 5 ∷ [];
}

storage-RaisesAws : RaisesAws whole storage
storage-RaisesAws t bucket key body e h = refl

abbrev entry : Entry whole
entry = record {
  name = "3-hop";
  method = "circuit_setup";
  num_requests = 9;
  num_failures = 1;
  current_rps = 2;
  p50 = some 3;
  p95 = some 4;
  p99 = none;
  avg_response_time = 3;
}

abbrev row : Row
row = record {
  timestamp = "now";
  status = "success";
  latency_ms = 12;
  circuit_rebuilt = false;
  rebuild_duration_ms = 0;
}

export_results-stores_example :
    export_results whole storage true "3" "b" "p" (row ∷ []) (entry ∷ []) [] ≡ (
      ok tt,
      put_of "b"
          ("p" <> "/" <> "with-predetection" <> "/" <> "now" <> "_stats.csv")
          storage.scenario_csv
          (map (stat_row whole "now" ("3" <> "-hop-" <> "with-predetection")) (entry ∷ []))
          (called (
              put_object "b"
                ("p" <> "/" <> "with-predetection" <> "/" <> "now" <> "_requests.csv")
                (4 ∷ []))
            ∷ called
                (write_file ("results/" <> "with-predetection" <> "_" <> "now" <> ".csv") (4 ∷ []))
            ∷ read_time
            ∷ []),
    )
export_results-stores_example =
    export_results-stores whole storage true "3" "b" "p" row [] (entry ∷ []) [] storage-RaisesAws
      refl refl

-- a request that went well, and one that failed two seconds later
abbrev samples : List Sample
samples =
    record { ts = 1_000_000; status = "success" }
    ∷ record { ts = 3_000_000; status = "failed_rebuilt" }
    ∷ []

compute_rps_timeline-sum_example : sum (compute_rps_timeline samples).1 ≡ length samples
compute_rps_timeline-sum_example = compute_rps_timeline-sum samples

compute_detection_time-IsDetection_example :
    ((compute_request_loss samples ≡ 0) × (compute_detection_time samples 2_000_000 ≡ 0))
    ⊎ IsDetection samples 2_000_000 (compute_detection_time samples 2_000_000)
compute_detection_time-IsDetection_example = compute_detection_time-IsDetection samples 2_000_000
