-- ===== src/Tests/Shared.antt =====
-- The checker's two threads, and the rows of two users, at concrete inputs.
use torr_bsds.Base.{List, [], ◌∷◌, ◌++◌, ◌≡◌, refl, ◌↔◌, ◌≤◌, true, false, none, map}
use torr_bsds.Runtime.Json.{null}
use torr_bsds.Recovery.Checker.{HealthChecker, new_checker, check_needs_rebuild}
use torr_bsds.Recovery.Checker.Detection.{IsStale}
use torr_bsds.Recovery.Checker.Threads.{
  System, init, Event, assigned, started, woke, failed, applied, quit, got, assign, start, wake,
  answer, fail, apply, end, Run, here, next, not_started, waiting, answered, ended,
}
use torr_bsds.Recovery.Checker.Threads.Stopping.{applications, Run-applications}
use torr_bsds.Recovery.Checker.Threads.Answers.{ops_of, Run-check_needs_rebuild, Run-stale_answer}
use torr_bsds.Recovery.Task.{Row, State, no_keys}
use torr_bsds.Recovery.User.{Config}
use torr_bsds.Recovery.Session.{sample_of}
use torr_bsds.Charts.{compute_request_loss}
use torr_bsds.Recovery.Crowd.{
  Merge, neither, left, right, nobody, somebody, Visitor, rows_of, raised_by_all,
}
use torr_bsds.Recovery.Crowd.Loss.{Shared-compute_request_loss}
use torr_bsds.Tests.Sample.{env}

-- A poll fails, and the next one finds a node of the circuit missing.
abbrev events : List Event
events = started ∷ woke ∷ failed ∷ assigned ("G" ∷ "R" ∷ []) ∷ woke ∷ got ("G" ∷ []) ∷ applied ∷ []

abbrev after : System
after = record {
  hc = record { current_node_ids = "G" ∷ "R" ∷ []; needs_rebuild = true };
  stopped = false;
  thread = waiting;
}

happened : Run init events after
unfolding torr_bsds.Recovery.Checker.set_circuit_nodes torr_bsds.Recovery.Checker.apply_poll
happened = next (start refl) (
    next (wake refl refl) (
      next (fail refl) (
        next (assign ("G" ∷ "R" ∷ [])) (
          next (wake refl refl)
            (next (answer ("G" ∷ []) refl) (next (apply ("G" ∷ []) refl) here))))))

Run-check_needs_rebuild_example :
    (check_needs_rebuild after.hc ≡ true) ↔ IsStale (ops_of not_started events)
Run-check_needs_rebuild_example = Run-check_needs_rebuild {u = after} {es = events} happened

Run-stale_answer_example :
    (u : System) × Run init
      (started ∷ woke ∷ got ("G" ∷ []) ∷ assigned ("G" ∷ "R" ∷ []) ∷ applied ∷ [])
      u
    × (u.hc.current_node_ids ≡ "G" ∷ "R" ∷ [])
    × (check_needs_rebuild u.hc ≡ true)
unfolding torr_bsds.Recovery.Checker.is_subset
Run-stale_answer_example = Run-stale_answer ("G" ∷ "R" ∷ []) ("G" ∷ []) refl refl

-- Stopped while a round is under way.
abbrev stopping : System
stopping = record { hc = new_checker; stopped = true; thread = answered ("G" ∷ []) }

abbrev stopped_after : System
stopped_after = record {
  hc = torr_bsds.Recovery.Checker.apply_poll ("G" ∷ []) new_checker;
  stopped = true;
  thread = ended;
}

ending : Run stopping (applied ∷ quit ∷ []) stopped_after
ending = next (apply ("G" ∷ []) refl) (next (end refl refl) here)

Run-applications_example :
    (applications (applied ∷ quit ∷ []) ≤ 1)
    × (stopping.thread ≡ waiting → applications (applied ∷ quit ∷ []) ≡ 0)
Run-applications_example = Run-applications {s = stopping} {u = stopped_after} ending refl

abbrev config : Config
config = record {
  directory_url = "http://d";
  echo_server_url = "http://echo";
  hops = 3;
  health_check = false;
}

abbrev start_state : State
start_state = (
  record {
    circuit = null;
    keys = no_keys;
    circuit_id = "id";
    health_checker = none;
    csv_rows = [];
  },
  [],
)

-- Two users, of one request each.
abbrev visitors : List Visitor
visitors =
    record { env = env; requests = 1; start = start_state }
    ∷ record { env = env; requests = 2; start = start_state }
    ∷ []

one_first : {A : Type 0} (xs ys : List A) → Merge xs ys (xs ++ ys)
one_first [] [] = neither
one_first [] (y ∷ ys) = right y (one_first [] ys)
one_first (x ∷ xs) ys = left x (one_first xs ys)

-- The first user's rows, then the second's.
abbrev all_rows : List Visitor → List Row
all_rows [] = []
all_rows (v ∷ visitors) = rows_of config v ++ all_rows visitors

abbrev shared_rows : List Row
shared_rows = all_rows visitors

Shared-compute_request_loss_example :
    compute_request_loss (map (sample_of (λ s. 0)) shared_rows) ≡ raised_by_all config visitors
Shared-compute_request_loss_example =
    Shared-compute_request_loss (λ s. 0) config visitors shared_rows (refl, (refl, tt))
      (somebody (somebody nobody (one_first _ _)) (one_first _ _))
