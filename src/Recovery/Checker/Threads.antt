-- ===== src/Recovery/Checker/Threads.antt =====
-- `HealthChecker` of experiments/experiment3/locustfile.py with its two threads: the user's, which
-- calls the methods, and the polling one, whose round is a wait, a request, and a block under the
-- lock. Each step is one that no other can come into the middle of.
pub mod Stopping
pub mod Answers
use torr_bsds.Base.{String, ◌≡◌, Bool, true, false, List, [], ◌∷◌}
use torr_bsds.Recovery.Checker.{HealthChecker, new_checker, set_circuit_nodes, apply_poll}

-- Where the polling thread is: before `start`, in `wait`, in the request, with the healthy IDs
-- before it takes the lock, and after the loop.
pub data Thread : Type 0 where
  not_started waiting asking ended : Thread
  answered : List String → Thread

pub record System : Type 0 where
  pub hc : HealthChecker
  pub stopped : Bool
  pub thread : Thread

abbrev pub init : System
init = record { hc = new_checker; stopped = false; thread = not_started }

-- What happens: `set_circuit_nodes`, `start` and `stop` by the user; by the polling thread, a wait
-- that finds the flag clear, an answer, an exception in its place, the block under the lock, and a
-- wait that finds the flag set.
pub data Event : Type 0 where
  assigned : List String → Event
  started stop_set woke failed applied quit : Event
  got : List String → Event

pub data Step (s : System) : Event → System → Type 0 where
  assign :
      (ids : List String) → Step s (assigned ids) (record s { hc = set_circuit_nodes ids s.hc })
  start : s.thread ≡ not_started → Step s started (record s { thread = waiting })
  stop : Step s stop_set (record s { stopped = true })
  wake : s.thread ≡ waiting → s.stopped ≡ false → Step s woke (record s { thread = asking })
  answer :
      (healthy : List String)
      → s.thread ≡ asking
      → Step s (got healthy) (record s { thread = answered healthy })
  fail : s.thread ≡ asking → Step s failed (record s { thread = waiting })
  apply :
      (healthy : List String)
      → s.thread ≡ answered healthy
      → Step s applied (record s { hc = apply_poll healthy s.hc; thread = waiting })
  end : s.thread ≡ waiting → s.stopped ≡ true → Step s quit (record s { thread = ended })

-- The events of a run, oldest first.
pub data Run : System → List Event → System → Type 0 where
  here : {s : System} → Run s [] s
  next : {s t u : System} {e : Event} {es : List Event} → Step s e t → Run t es u → Run s (e ∷ es) u
