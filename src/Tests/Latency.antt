-- ===== src/Tests/Latency.antt =====
-- The charts of experiment 1 without any data, where S3 refuses them.
use torr_bsds.Base.{◌≡◌, refl, none, []}
use torr_bsds.Runtime.Json.{ok, err, library}
use torr_bsds.Steady.{Point, load_history}
use torr_bsds.Steady.Drawn.{
  Host, Args, Scenarios, chart_latency, chart_throughput, chart_hop_cost, load_all_scenarios,
  load_scenario, main,
}
use torr_bsds.Steady.Drawn.Saved.{saved, main-saved}
use torr_bsds.Tests.Charts.{numbers}

abbrev desk : Host numbers
desk = record {
  history = λ path. ok none;
  text = λ y. "9";
  png = λ chart. [];
  write_file = λ t path body. ok tt;
  put_object = λ t bucket key body. err (library "denied");
}

abbrev args : Args numbers
args = record { results_dir = "results"; bucket = "b"; out_dir = "charts" }

abbrev empty : Scenarios numbers
empty = record { direct = []; one_hop = []; three_hops = [] }

main-saved_example : main numbers desk args [] ≡ (
  ok tt,
  saved numbers desk args "exp1_throughput_vs_concurrency.png" (chart_throughput numbers empty) (
      saved numbers desk args "exp1_hop_latency_cost.png" (chart_hop_cost numbers desk empty) (
        saved numbers desk args "exp1_p95_latency_vs_concurrency.png"
          (chart_latency numbers (λ (p : Point numbers). p.p95) "95" empty)
          (saved numbers desk args "exp1_p50_latency_vs_concurrency.png"
            (chart_latency numbers (λ (p : Point numbers). p.p50) "50" empty)
            []))),
)
unfolding load_all_scenarios load_scenario load_history
main-saved_example = main-saved numbers desk args empty [] [] (λ t path body. refl) refl
