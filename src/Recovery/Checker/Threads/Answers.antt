-- ===== src/Recovery/Checker/Threads/Answers.antt =====
-- The two threads against the history of the checker: which of the answers count.
use torr_bsds.Base.{String, ◌≡◌, refl, ◌↔◌, true, false, List, [], ◌∷◌}
use torr_bsds.Recovery.Checker.{
  is_empty, is_subset, set_circuit_nodes, apply_poll, check_needs_rebuild,
}
use torr_bsds.Recovery.Checker.Detection as Detection
use torr_bsds.Recovery.Checker.Detection.{Op, observe, IsStale, check_needs_rebuild_iff}
use torr_bsds.Recovery.Checker.Threads.{
  Thread, not_started, waiting, asking, ended, answered, System, init, Event, assigned, started,
  stop_set, woke, failed, applied, quit, got, assign, start, stop, wake, answer, fail, apply, end,
  Run, here, next,
}

-- The block under the lock, with the answer that was read for it.
abbrev applied_ops : Thread → List Op → List Op
applied_ops (answered healthy) rest = observe healthy ∷ rest
applied_ops _ rest = rest

-- The assignments and polls of a run, each poll where its block under the lock is.
unfoldable pub ops_of : Thread → List Event → List Op
ops_of th [] = []
ops_of th (assigned ids ∷ es) = Op.assign ids ∷ ops_of th es
ops_of th (started ∷ es) = ops_of waiting es
ops_of th (stop_set ∷ es) = ops_of th es
ops_of th (woke ∷ es) = ops_of asking es
ops_of th (got healthy ∷ es) = ops_of (answered healthy) es
ops_of th (failed ∷ es) = ops_of waiting es
ops_of th (applied ∷ es) = applied_ops th (ops_of waiting es)
ops_of th (quit ∷ es) = ops_of ended es

Run-ops_of :
    {s u : System} {es : List Event} → Run s es u → u.hc ≡ Detection.run (ops_of s.thread es) s.hc
unfolding ops_of Detection.run
Run-ops_of here = refl
Run-ops_of (next (assign ids) r) = Run-ops_of r
Run-ops_of (next (start w) r) = Run-ops_of r
Run-ops_of (next stop r) = Run-ops_of r
Run-ops_of (next (wake w g) r) = Run-ops_of r
Run-ops_of (next (answer healthy w) r) = Run-ops_of r
Run-ops_of (next (fail w) r) = Run-ops_of r
Run-ops_of (next (apply healthy w) r) = rw w (Run-ops_of r)
Run-ops_of (next (end w g) r) = Run-ops_of r

-- In every interleaving of the user's calls with the polling thread, the checker asks for a rebuild
-- exactly if, since the last assignment of a circuit, a round has taken the lock with an answer
-- that lacks one of the circuit's nodes.
pub Run-check_needs_rebuild :
    {u : System} {es : List Event}
    → Run init es u
    → (check_needs_rebuild u.hc ≡ true) ↔ IsStale (ops_of not_started es)
Run-check_needs_rebuild {u} {es} r =
    rw (Run-ops_of r) (check_needs_rebuild_iff (ops_of not_started es))

-- An answer that was read before a circuit was assigned counts for it all the same: for any circuit
-- and any answer without one of its nodes, there is a run in which the checker asks for a rebuild
-- of that circuit although it has read no answer since the circuit was assigned.
pub Run-stale_answer :
    (ids healthy : List String)
    → is_empty ids ≡ false
    → is_subset ids healthy ≡ false
    → (u : System) × Run init (started ∷ woke ∷ got healthy ∷ assigned ids ∷ applied ∷ []) u
      × (u.hc.current_node_ids ≡ ids)
      × (check_needs_rebuild u.hc ≡ true)
unfolding check_needs_rebuild set_circuit_nodes apply_poll
Run-stale_answer ids healthy some_id missing = (
  _,
  next (start refl) (
      next (wake refl refl)
        (next (answer healthy refl) (next (assign ids) (next (apply healthy refl) here)))),
  rw (some_id, missing) refl,
  rw (some_id, missing) refl,
)
