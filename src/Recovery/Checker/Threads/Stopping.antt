-- ===== src/Recovery/Checker/Threads/Stopping.antt =====
-- What the polling thread still does after `stop`.
use torr_bsds.Base.{ℕ, suc, ◌+◌, ◌≤◌, ◌≡◌, refl, true, List, [], ◌∷◌, arith}
use torr_bsds.Recovery.Checker.Threads.{
  Thread, not_started, waiting, asking, ended, answered, System, Event, assigned, started, stop_set,
  woke, failed, applied, quit, got, Step, assign, start, stop, wake, answer, fail, apply, end, Run,
  here, next,
}

-- How often the block under the lock was run.
unfoldable pub applications : List Event → ℕ
applications [] = 0
applications (applied ∷ es) = suc (applications es)
applications (assigned _ ∷ es) = applications es
applications (started ∷ es) = applications es
applications (stop_set ∷ es) = applications es
applications (woke ∷ es) = applications es
applications (failed ∷ es) = applications es
applications (quit ∷ es) = applications es
applications (got _ ∷ es) = applications es

-- A round that is under way.
pending : Thread → ℕ
pending asking = 1
pending (answered _) = 1
pending _ = 0

Step-stopped : {s t : System} {e : Event} → Step s e t → s.stopped ≡ true → t.stopped ≡ true
Step-stopped (assign ids) h = h
Step-stopped (start w) h = h
Step-stopped stop h = refl
Step-stopped (wake w g) h = h
Step-stopped (answer healthy w) h = h
Step-stopped (fail w) h = h
Step-stopped (apply healthy w) h = h
Step-stopped (end w g) h = h

-- After the flag is set, a step uses up the round that is under way, or leaves it.
Step-pending :
    {s t : System} {e : Event}
    → Step s e t
    → s.stopped ≡ true
    → applications (e ∷ []) + pending t.thread ≤ pending s.thread
unfolding applications pending
Step-pending (assign ids) h = omega arith
Step-pending (start w) h = omega arith
Step-pending stop h = omega arith
Step-pending (wake w g) h = cc
Step-pending (answer healthy w) h = rw w (omega arith)
Step-pending (fail w) h = omega arith
Step-pending (apply healthy w) h = rw w (omega arith)
Step-pending (end w g) h = omega arith

applications-cons :
    (e : Event) (es : List Event) → applications (e ∷ es) ≡ applications (e ∷ []) + applications es
unfolding applications
applications-cons e es = ground arith

Run-pending :
    {s u : System} {es : List Event}
    → Run s es u
    → s.stopped ≡ true
    → applications es + pending u.thread ≤ pending s.thread
unfolding applications
Run-pending here h = omega arith
Run-pending (next {e = e} {es = es} step r) h =
    omega (arith, applications-cons e es, Step-pending step h, Run-pending r (Step-stopped step h))

pending_le : (th : Thread) → pending th ≤ 1
unfolding pending
pending_le asking = omega arith
pending_le (answered _) = omega arith
pending_le not_started = omega arith
pending_le waiting = omega arith
pending_le ended = omega arith

-- Once `stop` has set the flag, the block under the lock runs at most once more, and not at all if
-- the polling thread was waiting; whatever the user does meanwhile.
pub Run-applications :
    {s u : System} {es : List Event}
    → Run s es u
    → s.stopped ≡ true
    → (applications es ≤ 1) × (s.thread ≡ waiting → applications es ≡ 0)
unfolding pending
Run-applications {s} {u} {es} r h =
    let bound = Run-pending r h in
    (
      omega (arith, bound, pending_le s.thread),
      λ w. let none_left : pending s.thread ≡ 0 = rw w refl in omega (arith, bound, none_left),
    )
