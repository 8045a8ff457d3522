-- ===== src/CommandLine.antt =====
-- The options of the scripts: each `parse_args`, and the one in `main` of
-- experiments/scripts/generate_exp2_cpu_chart.py. The package argparse is a parameter; the texts
-- that it prints are left out.
use torr_bsds.Base.{ℕ, String, Bool, false, Option, none, some, List, [], ◌∷◌}
use torr_bsds.Runtime.Json.{Json, null, bool, num, str, Result, ok, err, as_str, type_error}
use torr_bsds.Runtime.Fallible.{◌>>=◌}
use torr_bsds.Load.Settings.{getenv}
use torr_bsds.Load.Ramp.{Floats}
use torr_bsds.Kill as Kill
use torr_bsds.Metrics as Metrics
use torr_bsds.Steady as Steady
use torr_bsds.Steady.Drawn as Drawn
use torr_bsds.Scaling.Figures as Figures
use torr_bsds.Charts.Run as Run

-- What an option takes: a text, a whole number, or nothing.
pub data Kind : Type 0 where
  texts numbers switches : Kind

-- A call of `add_argument`, by the name that the value gets; without a default it is required.
pub record Flag : Type 0 where
  pub name : String
  pub kind : Kind
  pub default : Option Json

abbrev required : String → Flag
required name = record { name = name; kind = texts; default = none }

abbrev optional : String → String → Flag
optional name default = record { name = name; kind = texts; default = some (str default) }

-- The package: of the options, those that exclude each other, and the command line, it makes the
-- values by name, or exits.
pub record Argparse : Type 0 where
  pub parse : List Flag → List (List String) → List String → Result (String → Json)

abbrev text : (String → Json) → String → Result String
text args name = as_str (args name) type_error

-- A text that may be `None`, which the scripts take for an empty one.
abbrev text_or_empty : Json → Result String
text_or_empty null = ok ""
text_or_empty v = as_str v type_error

abbrev number : Json → Result ℕ
number (num n) = ok n
number _ = err type_error

abbrev switch : Json → Result Bool
switch (bool b) = ok b
switch _ = err type_error

abbrev pub kill_flags : List Flag
kill_flags =
    required "cluster"
    ∷ optional "service" "relay-service"
    ∷ record { name = "delay"; kind = numbers; default = some (num 0) }
    ∷ optional "output" ""
    ∷ record { name = "dry_run"; kind = switches; default = some (bool false) }
    ∷ []

abbrev pub chart_flags : List Flag
chart_flags =
    required "data_dir"
    ∷ optional "kill_event" ""
    ∷ optional "kill_event_no_predetection" ""
    ∷ optional "kill_event_with_predetection" ""
    ∷ optional "out_dir" "docs/charts"
    ∷ optional "bucket" ""
    ∷ optional "region" "us-east-1"
    ∷ []

module _ (argparse : Argparse) where
  -- `parse_args` of scripts/kill_relay.py
  unfoldable pub parse_kill : List String → Result Kill.Args
  parse_kill argv = do
    args ← argparse.parse kill_flags [] argv
    cluster ← text args "cluster"
    service ← text args "service"
    delay ← number (args "delay")
    output ← text args "output"
    dry_run ← switch (args "dry_run")
    ok (record {
      cluster = cluster;
      service = service;
      delay = delay;
      output = output;
      dry_run = dry_run;
    })

  -- `parse_args` of experiments/experiment3/generate_charts.py, with the bucket
  unfoldable pub parse_charts : List String → Result (Run.Args × String)
  parse_charts argv = do
    args ← argparse.parse chart_flags [] argv
    data_dir ← text args "data_dir"
    kill_event ← text args "kill_event"
    no_predetection ← text args "kill_event_no_predetection"
    with_predetection ← text args "kill_event_with_predetection"
    out_dir ← text args "out_dir"
    bucket ← text args "bucket"
    ok (
      record {
        data_dir = data_dir;
        kill_event = kill_event;
        kill_event_no_predetection = no_predetection;
        kill_event_with_predetection = with_predetection;
        out_dir = out_dir;
      },
      bucket,
    )

  module _ (environ : String → Option String) (int : String → Result ℕ) where
    abbrev from_env : String → String → String → Flag
    from_env name variable default = optional name (getenv environ int variable default)

    abbrev pub export_flags : List Flag
    export_flags =
        required "start"
        ∷ required "end"
        ∷ from_env "bucket" "EXPERIMENT_RESULTS_BUCKET" ""
        ∷ from_env "cluster" "ECS_CLUSTER_NAME" "hopvault-cluster"
        ∷ from_env "region" "AWS_DEFAULT_REGION" "us-east-1"
        ∷ optional "prefix" "metrics"
        ∷ optional "services" "directory-server,guard-node,relay-node,exit-node,echo-server"
        ∷ []

    -- `parse_args` of experiments/scripts/export_cloudwatch_metrics.py
    unfoldable pub parse_export : (F : Floats) → List String → Result (Metrics.Args F)
    parse_export F argv = do
      args ← argparse.parse export_flags [] argv
      start ← text args "start"
      until ← text args "end"
      bucket ← text args "bucket"
      cluster ← text args "cluster"
      prefix ← text args "prefix"
      services ← text args "services"
      ok (record {
        start = start;
        end = until;
        bucket = bucket;
        cluster = cluster;
        prefix = prefix;
        services = services;
      })

    abbrev pub exp1_flags : List Flag
    exp1_flags =
        optional "results_dir" "experiments/results"
        ∷ optional "bucket" ""
        ∷ from_env "region" "AWS_DEFAULT_REGION" "us-west-2"
        ∷ optional "out_dir" "docs/charts"
        ∷ []

    -- `parse_args` of experiments/scripts/generate_exp1_charts.py
    unfoldable pub parse_exp1 : (F : Steady.Floats) → List String → Result (Drawn.Args F)
    parse_exp1 F argv = do
      args ← argparse.parse exp1_flags [] argv
      results_dir ← text args "results_dir"
      bucket ← text args "bucket"
      out_dir ← text args "out_dir"
      ok (record { results_dir = results_dir; bucket = bucket; out_dir = out_dir })

    abbrev pub exp2_flags : List Flag
    exp2_flags =
        from_env "bucket" "EXPERIMENT_RESULTS_BUCKET" ""
        ∷ record { name = "local_dir"; kind = texts; default = some null }
        ∷ from_env "region" "AWS_DEFAULT_REGION" "us-east-1"
        ∷ optional "out_dir" "docs/charts"
        ∷ []

    -- `parse_args` of experiments/scripts/generate_exp2_charts.py, of which the first two options
    -- exclude each other
    unfoldable pub parse_exp2 : List String → Result Figures.Args
    parse_exp2 argv = do
      args ← argparse.parse exp2_flags (("bucket" ∷ "local_dir" ∷ []) ∷ []) argv
      bucket ← text args "bucket"
      local_dir ← text_or_empty (args "local_dir")
      out_dir ← text args "out_dir"
      ok (record { bucket = bucket; local_dir = local_dir; out_dir = out_dir })

    abbrev pub cpu_flags : List Flag
    cpu_flags =
        optional "timestamps" "/tmp/cpu_timestamps.csv"
        ∷ optional "out_dir" "docs/charts"
        ∷ optional "cluster" "hopvault-cluster"
        ∷ from_env "region" "AWS_DEFAULT_REGION" "us-west-2"
        ∷ []
