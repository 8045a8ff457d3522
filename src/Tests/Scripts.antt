-- ===== src/Tests/Scripts.antt =====
-- The theorems on the scripts that read and write results, at concrete inputs.
use torr_bsds.Base.{
  none, some, ℕ, String, ◌≡◌, refl, true, inl, inr, List, [], ◌∷◌, map, ◌++◌, str_eq, leb,
  if◌then◌else◌, Bool-cases,
}
use torr_bsds.Runtime.Json.{Result, library, ok, err}
use torr_bsds.Runtime.Text.{split, strip, lstrip, rstrip, rstrip_char}
use torr_bsds.Metrics.{Cloud, Args, MetricResult, Point, named, zip_points, key_of, parse_utc, main}
use torr_bsds.Metrics.Exported.{Serves, puts, files, file, all_points, main-exports}
use torr_bsds.Runtime.Sort.{sort, insert}
use torr_bsds.Summary.{
  Row, Files, Os, column, find_column, filter_scenario, Ints, with_keys, rows_for,
}
use torr_bsds.Runtime.Fallible.{traverse}
use torr_bsds.Load.Settings.{concurrency_levels, getenv, s3_prefix}
use torr_bsds.Summary.Drawn as Drawn
use torr_bsds.Summary.Appended.{Run, run_all, recorded, content, run_all-summary}
use torr_bsds.Tests.Load.{whole}

-- CloudWatch has one point of each service's CPU, and refuses the other metrics.
abbrev result : MetricResult whole
result = record { timestamps = 5 ∷ []; values = 7 ∷ [] }

abbrev pub cloud : Cloud whole
cloud = record {
  get_metric_data = λ t cluster service metric start end.
      if str_eq metric "CPUUtilization" then ok (result ∷ []) else err (library "throttled");
  put_object = λ t bucket key body. err (library "denied");
  is_aws_error = λ e. true;
  fromisoformat = λ s. if str_eq s "10:00" then ok 10 else ok 12;
  strftime = λ format time. "t";
  points_csv = λ rows. 1 ∷ [];
}

abbrev pub args : Args whole
args = record {
  start = "10:00Z";
  end = "12:00Z";
  bucket = "b";
  cluster = "c";
  prefix = "metrics";
  services = "guard-node, relay-node,";
}

services_test : named whole (split "," args.services) ≡ ("guard-node" ∷ "relay-node" ∷ [])
unfolding named split strip lstrip rstrip
services_test = refl

abbrev answer : String → String → String → List (Point whole)
answer service metric unit =
    if str_eq metric "CPUUtilization"
    then zip_points whole cloud service metric unit (5 ∷ []) (7 ∷ [])
    else []

served : Serves whole cloud args answer 10 12
served = record {
  metric = λ t service metric unit. elim (Bool-cases (str_eq metric "CPUUtilization")) [
    | inl e ↦ inl (result, [], rw e refl, rw e refl)
    | inr e ↦ inr (library "throttled", rw e refl, refl, rw e refl)
  ];
  storing = λ t bucket key body e failed. refl;
}

main-exports_example :
    let services = named whole (split "," args.services) in
    ((main whole cloud args []).0 ≡ ok tt)
    × (puts (main whole cloud args []).1
        ≡ puts []
          ++ (files whole cloud args answer 10 12 services
              ++ file whole cloud args
                  (key_of whole cloud args "all_services" 10 12)
                  (all_points whole cloud args answer services)))
unfolding parse_utc rstrip_char rstrip
main-exports_example = main-exports whole cloud args answer 10 12 [] served refl refl refl refl

abbrev os : Os
os = record { dirname = λ path. "out"; makedirs = λ path. ok tt }

-- Statistics whose last line is the aggregate, and none for the second run.
abbrev stats : String → Result (List Row)
stats path =
    if str_eq path "a.csv"
    then ok
        ((("Name", some "GET") ∷ []) ∷ (("Name", some "Aggregated") ∷ ("50%", some "7") ∷ []) ∷ [])
    else ok []

abbrev no_summary : Files
no_summary = record { stats = stats; summary = λ path. none }

abbrev runs : List Run
runs = ("a.csv", "direct", "10") ∷ ("b.csv", "direct", "50") ∷ ("a.csv", "one-hop", "10") ∷ []

run_all-summary_example :
    (run_all os "out/s.csv" runs no_summary).summary "out/s.csv" ≡ content (recorded stats runs)
run_all-summary_example = run_all-summary os "out/s.csv" refl runs no_summary refl

-- Numbers as texts of one digit.
abbrev ints : Ints
ints = record { Int = ℕ; le = leb; int = λ s. if str_eq s "1" then ok 1 else ok 2 }

abbrev row_of : String → String → Row
row_of scenario concurrency = ("scenario", some scenario) ∷ ("concurrency", some concurrency) ∷ []

abbrev summary : List Row
summary = row_of "direct" "2" ∷ row_of "one-hop" "1" ∷ row_of "direct" "1" ∷ []

abbrev decimal : String → Result ℕ
decimal s =
    if str_eq s "10" then ok 10 else if str_eq s "50" then ok 50 else err (library "not a number")

levels_test :
    concurrency_levels
      (λ name. if str_eq name "CONCURRENCY_LEVELS" then some " 50,10 " else none)
      decimal
    ≡ ok (50 ∷ 10 ∷ [])
unfolding concurrency_levels getenv traverse split strip lstrip rstrip
levels_test = refl

prefix_test : s3_prefix (λ name. some "runs//") decimal "experiment-1/direct" ≡ "runs"
unfolding s3_prefix getenv rstrip_char rstrip
prefix_test = refl

abbrev printer : Drawn.Host
printer = record {
  Float = ℕ;
  float = λ s. ok 5;
  makedirs = λ path. ok tt;
  join = λ dir name. name;
  read_rows = λ path. ok (row "2" ∷ row "1" ∷ []);
}
  where
    row : String → Row
    row level =
        ("p50_ms", some "5") ∷ ("p95_ms", some "5") ∷ ("p99_ms", some "5") ∷ row_of "direct" level

abbrev fives : String → Drawn.Curve ints printer
fives label = record { label = label; x = 1 ∷ 2 ∷ []; y = 5 ∷ 5 ∷ [] }

-- Without rows of the one-hop runs there is one chart, in the order of the levels.
drawn_test :
    Drawn.main ints printer ("summary.csv" ∷ "charts" ∷ [])
    ≡ ok (
        record {
          output_path = "direct-latency-vs-concurrency.png";
          title = "direct latency vs concurrency";
          x_label = "Concurrent users";
          y_label = "Latency (ms)";
          curves = map fives ("p50" ∷ "p95" ∷ "p99" ∷ []);
        }
        ∷ [])
unfolding Drawn.main Drawn.latency_chart Drawn.comparison_chart Drawn.plot_latency Drawn.levels_of
    Drawn.floats_of traverse rows_for filter_scenario with_keys column find_column sort insert
drawn_test = refl
