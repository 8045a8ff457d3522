-- ===== src/Tests/Recovery.antt =====
-- The theorems on the failure test, in the sample world.
use torr_bsds.Base.{
  List, [], leb, replicate, ◌++◌, arith, ◌∷◌, ◌≡◌, refl, ◌↔◌, true, false, some, inl,
}
use torr_bsds.Runtime.Exec.{Trace}
use torr_bsds.Recovery.Checker.Loop.{requests, nodes_request, poll_loop-ends}
use torr_bsds.Recovery.Checker.{HealthChecker, poll_loop, new_checker, check_needs_rebuild}
use torr_bsds.Recovery.Checker.Detection.{
  Op, assign, observe, run, IsStale, check_needs_rebuild_iff,
}
use torr_bsds.Runtime.Json.{null, ok}
use torr_bsds.Recovery.Task.{User, no_keys}
use torr_bsds.Recovery.Task.Triple.{Post}
use torr_bsds.Recovery.User.{Config, rebuild_circuit, send_request}
use torr_bsds.Recovery.User.Invariant.{IsReady, IsSound, IsWatched, rebuild_circuit-IsReady}
use torr_bsds.Recovery.User.Soundness.{send_request-IsReady}
use torr_bsds.Recovery.User.Logging.{Statuses}
use torr_bsds.Recovery.User.Rows.{LoggedFailure, send_request_rows}
use torr_bsds.Recovery.User.Watching.{Watches, Anything, send_request-Watches}
use torr_bsds.Tests.Sample.{env, env-IsLawful}

abbrev config : Config
config = record {
  directory_url = "http://d";
  echo_server_url = "http://echo";
  hops = 3;
  health_check = true;
}

-- a node goes missing after the circuit was assigned
abbrev history : List Op
history = assign ("G" ∷ "R" ∷ []) ∷ observe ("G" ∷ []) ∷ []

check_needs_rebuild_iff_example :
    (check_needs_rebuild (run history new_checker) ≡ true) ↔ IsStale history
check_needs_rebuild_iff_example = check_needs_rebuild_iff history

-- A user whose last rebuild failed, after one request that went well.
abbrev user : User
user = record {
  circuit = null;
  keys = no_keys;
  circuit_id = "id";
  health_checker = some new_checker;
  csv_rows =
      record {
        timestamp = "now";
        status = "success";
        latency_ms = 12;
        circuit_rebuilt = false;
        rebuild_duration_ms = 0;
      }
      ∷ [];
}

rebuild_circuit-IsReady_example :
    Post
      (λ _ u. IsReady env 3 u × IsWatched 3 u)
      (IsSound env 3)
      (rebuild_circuit env config (user, []))
rebuild_circuit-IsReady_example = rebuild_circuit-IsReady env env-IsLawful config (user, [])

send_request-IsReady_example :
    Post (λ _. IsReady env 3) (IsSound env 3) (send_request env config (user, []))
send_request-IsReady_example = send_request-IsReady env env-IsLawful config (user, []) (inl refl)

send_request_rows_example :
    Post
      (λ _. Statuses ("success" ∷ "success" ∷ []))
      (LoggedFailure env config ("success" ∷ []))
      (send_request env config (user, []))
send_request_rows_example = send_request_rows env config ("success" ∷ []) (user, []) refl

-- A checker that has asked for a rebuild.
abbrev asking : User
asking = record {
  circuit = null;
  keys = no_keys;
  circuit_id = "id";
  health_checker = some (record { current_node_ids = "G" ∷ []; needs_rebuild = true });
  csv_rows = [];
}

send_request-Watches_example : Post (λ _. Watches 3) Anything (send_request env config (asking, []))
unfolding torr_bsds.Recovery.User.needs_rebuild check_needs_rebuild
send_request-Watches_example = send_request-Watches env env-IsLawful config (asking, []) (inl refl)

-- The stop flag is found set at the third wait.
poll_loop-ends_example :
    (hc : HealthChecker) × (u : Trace) × (poll_loop env "http://d"
        (λ round. leb 2 round)
        9
        0
        new_checker
        []
      ≡ (ok (some hc), u))
    × (requests u ≡ replicate 2 (nodes_request env "http://d") ++ requests [])
poll_loop-ends_example =
    poll_loop-ends env "http://d" (λ round. leb 2 round) 2 9 new_checker [] (refl, (refl, refl))
      (omega arith)
