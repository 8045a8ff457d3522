-- ===== src/Tests/Charts.antt =====
-- The theorems on the charts, and on what they are made from, at concrete inputs.
use mathlib.Core.Option
use torr_bsds.Base.{
  ℕ, zero, suc, String, ◌<>◌, ◌≡◌, refl, ap, true, false, none, some, inr, List, [], ◌∷◌, All, map,
  str_eq, arith, ◌==◌, ◌*◌, ◌/◌, ◌-◌, ◌+◌, max, if◌then◌else◌,
}
use torr_bsds.Runtime.Json.{
  get_or, lookup, truthy, err, library, Json, str, num, obj, field, end, ok,
}
use torr_bsds.Runtime.Text.{rstrip_char, rstrip, split, strip, lstrip, le_text, ends_with, has_text}
use torr_bsds.Runtime.Sort.{sort, insert}
use torr_bsds.Scaling.{
  Store, relay_counts, Summaries, load_summaries_from_s3, load_summaries_from_dir, load_from_dir,
  read_latest, having_suffix, last, ceiling_of,
}
use torr_bsds.Scaling.Axes.{max_throughput, p95_at_ceiling, cpu_by_service, throughput_per_relay}
use torr_bsds.Scaling.Figures as Figures
use torr_bsds.Scaling.Figures.Saved.{saved, main-saves}
use torr_bsds.Scaling.Loaded.{Mirrors, load_summaries_from_s3-dir}
use torr_bsds.Scaling.Windows.{
  Window, load_timestamps, parse_window, parse_windows, parse_utc, part,
}
use torr_bsds.Scaling.Cpu as Cpu
use torr_bsds.Scaling.Cpu.Drawn.{Pen}
use torr_bsds.Scaling.Cpu.Drawn.Curves.{Draws, draw_main-Draws}
use torr_bsds.Steady as Steady
use torr_bsds.Kill as Kill
use torr_bsds.Kill.{Aws, kill_event, node_id_of_containers}
use torr_bsds.Kill.Node.{Environment}
use torr_bsds.Charts.Run as Run
use torr_bsds.Charts.Run.Found.{first_of_mode, find_data_files-first}
use torr_bsds.Charts.Run.KillTime.{kill_times-own}
use torr_bsds.Tests.Load.{whole, aws, settings, ticks}
use torr_bsds.Load.Ramp.{start}
use torr_bsds.Load.Ramp.Records.{run}
use torr_bsds.Load.Ramp.Order.{IsClimbing, run-IsClimbing}

abbrev digits : ℕ → String
digits n = if n == 2 then "2" else if n == 5 then "5" else if n == 10 then "10" else "20"

abbrev directory : List String
directory = "1_summary.json" ∷ "1_steps.csv" ∷ "2_summary.json" ∷ []

abbrev store : Store
store = record {
  list_objects = λ t bucket prefix. ok (some (map (λ name. prefix <> name) directory));
  get_object = λ t bucket key. ok [];
  list_dir = λ dir. directory;
  read_file = λ dir name. ok [];
  loads = λ body. ok (obj (field "ceiling" (obj (field "users" (num 20) end)) end));
  show = digits;
}

mirrors : All (Mirrors store "b" "results") relay_counts
unfolding rstrip_char rstrip
mirrors = (
  record { listing = λ t. (some _, refl, refl); reading = λ t name is_in. ([], refl, refl) },
  (
    record { listing = λ t. (some _, refl, refl); reading = λ t name is_in. ([], refl, refl) },
    (
      record { listing = λ t. (some _, refl, refl); reading = λ t name is_in. ([], refl, refl) },
      (
        record { listing = λ t. (some _, refl, refl); reading = λ t name is_in. ([], refl, refl) },
        tt,
      ),
    ),
  ),
)

load_summaries_from_s3-dir_example :
    (load_summaries_from_s3 store "b" []).0 ≡ load_summaries_from_dir store "results"
load_summaries_from_s3-dir_example = load_summaries_from_s3-dir store "b" "results" [] mirrors

abbrev environments : List Environment
environments = (("HOST", "h") ∷ []) ∷ (("NODE_ID", "relay-1") ∷ ("NODE_ID", "x") ∷ []) ∷ []

-- A run in which the second step is judged and the third is over.
run-IsClimbing_example :
    IsClimbing whole settings (run whole settings ticks (start whole)).step_records
run-IsClimbing_example =
    run-IsClimbing whole settings ticks (omega arith, (omega arith, (omega arith, tt)))

-- Times as so many ones.
unary : ℕ → String
unary zero = ""
unary (suc n) = String.◌∷◌ "1" (unary n)

ones : String → ℕ
ones String.[] = 0
ones (String.◌∷◌ c s) = suc (ones s)

ones-unary : (n : ℕ) → ones (unary n) ≡ n
unfolding ones unary
ones-unary zero = refl
ones-unary (suc n) = ap suc (ones-unary n)

abbrev clock : Aws
clock = record {
  list_tasks = aws.list_tasks;
  describe_tasks = aws.describe_tasks;
  stop_task = aws.stop_task;
  is_aws_error = aws.is_aws_error;
  now = aws.now;
  isoformat = unary;
  event_text = aws.event_text;
  write_file = aws.write_file;
}

abbrev killed : Kill.Args
killed = record { cluster = "c"; service = "s"; delay = 0; output = "e.json"; dry_run = false }

abbrev event_at : ℕ → Json
event_at time = kill_event clock killed "7" (str "relay-1") time true

abbrev names : List String
names =
    "with-predetection_1.csv" ∷ "no-predetection_2.csv" ∷ "no-predetection_1.csv"
    ∷ "no-predetection_0_stats.csv" ∷ []

abbrev host : Run.Host
host = record {
  Float = ℕ;
  float = λ s. ok 0;
  lower = λ s. s;
  strptime = λ s. ok (ones s);
  fromisoformat = λ s. ok (ones s);
  makedirs = λ path. ok tt;
  listdir = λ path. ok names;
  join = λ dir name. dir <> "/" <> name;
  read_rows = λ path. ok [];
  read_json = λ path. ok (event_at (if str_eq path "no.json" then 3 else 4));
}

abbrev charts : Run.Args
charts = record {
  data_dir = "results";
  kill_event = "both.json";
  kill_event_no_predetection = "no.json";
  kill_event_with_predetection = "with.json";
  out_dir = "charts";
}

kill_times-own_example :
    (times : Run.ByMode ℕ) × (Run.kill_times host charts ≡ ok times)
    × (Run.find_mode "no-predetection" times ≡ some 3)
    × (Run.find_mode "with-predetection" times ≡ some 4)
kill_times-own_example =
    kill_times-own clock host (λ time. ap ok (ones-unary time)) charts 3 4
      (inr (4, (killed, "7", str "relay-1", true, refl))) (killed, "7", str "relay-1", true, refl)
      (killed, "7", str "relay-1", true, refl) refl refl

find_data_files-first_example :
    let files : Run.ByMode String =
      ("no-predetection", "results/no-predetection_1.csv")
      ∷ ("with-predetection", "results/with-predetection_1.csv")
      ∷ [] in
    (Run.find_mode "no-predetection" files
      ≡ Option.map
          (λ name. "results" <> "/" <> name)
          (first_of_mode "no-predetection" (sort le_text names)))
    × (Run.find_mode "with-predetection" files
        ≡ Option.map
            (λ name. "results" <> "/" <> name)
            (first_of_mode "with-predetection" (sort le_text names)))
unfolding has_text Run.find_data_files Run.add_files Run.add_file Run.is_data Run.has_any
    Run.set_mode Run.find_mode ends_with sort insert le_text
find_data_files-first_example =
    find_data_files-first host "results" _ _ refl (refl, (refl, (refl, (refl, tt)))) refl

-- Two windows, out of order, with a blank line between them.
abbrev lines : List String
lines = "5,1111Z,11111Z" ∷ " " ∷ "2,1Z,111Z" ∷ []

abbrev windows : List Window
windows =
    record { relay_count = 2; start = 1; end = 3 }
    ∷ record { relay_count = 5; start = 4; end = 5 }
    ∷ []

abbrev points : String → String → ℕ → ℕ → List ℕ
points service metric from until = if str_eq metric "CpuUtilized" then 3 ∷ 4 ∷ [] else 6 ∷ []

abbrev watch : Cpu.Host
watch = record {
  Float = ℕ;
  zero = 0;
  is_zero = λ x. x == 0;
  mean = λ x l. x;
  percent = λ a b. a * 100 / b;
  int = λ s. ok (if str_eq s "2" then 2 else 5);
  fromisoformat = λ s. ok (ones s);
  get_metric_statistics =
      λ t cluster service metric from until. ok (points service metric from until);
}

abbrev ink : Pen watch
ink = record {
  png = λ figure. figure.y_top ∷ [];
  makedirs = λ path. ok tt;
  write_file = λ t path body. ok tt;
  text = λ x. "9";
  greatest = λ x vals. x;
  room = λ y. y * 5 / 4 + 5;
}

draw_main-Draws_example : Draws watch ink "c" "charts" points windows lines []
unfolding ones split strip lstrip rstrip rstrip_char load_timestamps parse_windows parse_window
    parse_utc part sort insert
draw_main-Draws_example =
    draw_main-Draws watch ink "c" "charts" points lines windows []
      (λ t service metric from until. refl) refl refl (λ t path body. refl)

abbrev pub numbers : Steady.Floats
numbers = record {
  Float = ℕ;
  zero = 0;
  to_numeric = λ s. some 1;
  median = λ x l. x;
  sub = λ a b. a - b;
  max = max;
}

abbrev point : ℕ → ℕ → Steady.Point numbers
point users p50 = record { user_count = users; p50 = some p50; p95 = none; requests_per_s = none }

abbrev history : List (Steady.Point numbers)
history = point 10 90 ∷ point 10 40 ∷ point 10 50 ∷ point 50 60 ∷ []

abbrev levels : List ℕ
levels = 10 ∷ 100 ∷ []

abbrev pub desk : Figures.Host
desk = record {
  Float = ℕ;
  zero = 0;
  number = λ v. ok 9;
  div = λ x n. x / n;
  rounded_mean = λ x l. x;
  read_csv = λ body. ok (record { has_metric = true; rows = [] });
  glob_all_services = λ dir. ok [];
  is_aws_error = λ e. true;
  texts = record {
    whole = λ x. "9";
    signed = λ x. "+0";
    show = digits;
    threshold = 500;
    deviation = λ y baseline. 0;
  };
  png = λ chart. [];
  write_file = λ t path body. ok tt;
  put_object = λ t bucket key body. err (library "denied");
}

abbrev draw : Figures.Args
draw = record { bucket = "b"; local_dir = "results"; out_dir = "charts" }

abbrev ceiling : Json
ceiling = obj (field "users" (num 20) end)

abbrev summaries : Summaries
summaries = (2, ceiling) ∷ (5, ceiling) ∷ (10, ceiling) ∷ (20, ceiling) ∷ []

abbrev nines : List (ℕ × ℕ)
nines = (2, 9) ∷ (5, 9) ∷ (10, 9) ∷ (20, 9) ∷ []

main-saves_example : Figures.main store desk draw [] ≡ (
  ok tt,
  saved store desk draw "exp2_throughput_per_relay.png"
      (throughput_per_relay desk.texts
        (Figures.per_relay store desk nines)
        (Figures.baseline_of store desk (Figures.per_relay store desk nines)))
      (saved store desk draw "exp2_cpu_by_service_vs_relays.png"
        (cpu_by_service desk.texts
          (Figures.counts_of store desk summaries)
          (Figures.cpu_bars store desk [] summaries))
        (saved store desk draw "exp2_p95_at_ceiling_vs_relays.png"
          (p95_at_ceiling desk.texts nines)
          (saved store desk draw "exp2_max_throughput_vs_relays.png"
            (max_throughput desk.texts nines)
            []))),
)
unfolding Figures.load_data load_summaries_from_dir load_from_dir read_latest having_suffix last
    ceiling_of ends_with sort insert le_text get_or lookup truthy Figures.load_cpu_from_dir
    Figures.only_cpu Figures.concat Figures.values_of
main-saves_example =
    main-saves store desk draw summaries [] nines nines [] []
      (record { writing = λ t path body. refl; storing = λ t bucket key body e failed. refl }) refl
      refl (λ e. cc) refl refl
