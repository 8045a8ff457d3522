-- ===== src/Recovery/Checker/Detection.antt =====
-- When the checker asks for a rebuild, over every interleaving of polls and of new circuits.
use torr_bsds.Base.{
  String, ◌≡◌, refl, ◌↔◌, ◌⊎◌, inl, inr, Bool, true, false, not, ◌&&◌, List, [], ◌∷◌, arith, str_eq,
  eq_iff, Bool-cases,
}
use torr_bsds.Recovery.Checker.{
  HealthChecker, new_checker, contains, is_subset, is_empty, set_circuit_nodes, apply_poll,
  check_needs_rebuild,
}

abbrev pub In : String → List String → Type 0
In x [] = ⊥
In x (y ∷ ys) = (x ≡ y) ⊎ In x ys

contains_iff : (x : String) (ys : List String) → (contains x ys ≡ true) ↔ In x ys
unfolding contains
contains_iff x [] = ((λ h. cc), λ h. absurd h)
contains_iff x (y ∷ ys) =
    let (to, back) = contains_iff x ys in
    let (same, copy) = eq_iff x y in
    (
      λ h. elim (Bool-cases (str_eq x y)) [ inl e ↦ inl (same e) | inr e ↦ inr (to (rw e at h)) ],
      λ h. elim h [ inl e ↦ rw (copy e) | inr i ↦ ground (arith, back i) ],
    )

-- Some ID of the circuit is not among the healthy ones.
abbrev pub IsMissing : List String → List String → Type 0
IsMissing ids healthy = (id : String) × In id ids × ¬ (In id healthy)

-- The test of the code finds one exactly if there is one.
abbrev misses : List String → List String → Bool
misses ids healthy = not (is_empty ids) && not (is_subset ids healthy)

IsMissing-cons :
    (x : String) (xs healthy : List String) → IsMissing xs healthy → IsMissing (x ∷ xs) healthy
IsMissing-cons x xs healthy (id, member, gone) = (id, inr member, gone)

is_subset-IsMissing :
    (ids healthy : List String) → (is_subset ids healthy ≡ false) ↔ IsMissing ids healthy
unfolding is_subset
is_subset-IsMissing [] healthy = ((λ h. cc), λ m. absurd m.1)
is_subset-IsMissing (x ∷ xs) healthy =
    let (to, back) = is_subset-IsMissing xs healthy in
    let (found, there) = contains_iff x healthy in
    (
      λ h. elim (Bool-cases (contains x healthy)) [
        | inl e ↦ IsMissing-cons x xs healthy (to (rw e at h))
        | inr e ↦ (x, inl refl, λ i. cc (e, there i))
      ],
      λ (id, member, gone). elim (Bool-cases (contains x healthy)) [
        | inl e ↦ rw e (elim member [
          | inl same ↦ absurd (gone (rw same (found e)))
          | inr later ↦ back (id, later, gone)
        ])
        | inr e ↦ rw e
      ],
    )

misses_iff : (ids healthy : List String) → (misses ids healthy ≡ true) ↔ IsMissing ids healthy
unfolding is_subset
misses_iff [] healthy = ((λ h. cc), λ m. absurd m.1)
misses_iff (x ∷ xs) healthy =
    let (to, back) = is_subset-IsMissing (x ∷ xs) healthy in
    ((λ h. to (ground arith)), λ m. ground (arith, back m))

-- What happens to a checker under its lock, in any order: the user assigns the nodes of a new
-- circuit, or a poll ends with the healthy nodes.
pub data Op : Type 0 where
  assign observe : List String → Op

abbrev pub step : Op → HealthChecker → HealthChecker
step (assign ids) hc = set_circuit_nodes ids hc
step (observe healthy) hc = apply_poll healthy hc

unfoldable pub run : List Op → HealthChecker → HealthChecker
run [] hc = hc
run (op ∷ ops) hc = run ops (step op hc)

abbrev pub Unassigned : List Op → Type 0
Unassigned [] = Unit
Unassigned (assign _ ∷ ops) = ⊥
Unassigned (observe _ ∷ ops) = Unassigned ops

-- Before another circuit is assigned some poll finds one of these nodes missing, and none is
-- assigned after it.
abbrev pub Detected : List String → List Op → Type 0
Detected ids [] = ⊥
Detected ids (assign _ ∷ ops) = ⊥
Detected ids (observe healthy ∷ ops) = (IsMissing ids healthy × Unassigned ops) ⊎ Detected ids ops

-- The last circuit that was assigned has lost a node in the eyes of some poll since.
abbrev pub IsStale : List Op → Type 0
IsStale [] = ⊥
IsStale (assign ids ∷ ops) = Detected ids ops ⊎ IsStale ops
IsStale (observe _ ∷ ops) = IsStale ops

pub apply_poll-ids :
    (healthy : List String) (hc : HealthChecker)
    → (apply_poll healthy hc).current_node_ids ≡ hc.current_node_ids
unfolding apply_poll
apply_poll-ids healthy hc = ground arith

apply_poll_iff :
    (healthy : List String) (hc : HealthChecker)
    → ((apply_poll healthy hc).needs_rebuild ≡ true)
      ↔ ((hc.needs_rebuild ≡ true) ⊎ IsMissing hc.current_node_ids healthy)
unfolding apply_poll
apply_poll_iff healthy hc =
    let (to, back) = misses_iff hc.current_node_ids healthy in
    elim (Bool-cases (misses hc.current_node_ids healthy)) [
      | inl e ↦ ((λ h. inr (to e)), λ _. ground arith)
      | inr e ↦
          ((λ h. inl (ground arith)), λ h. elim h [ inl n ↦ ground arith | inr m ↦ cc (e, back m) ])
    ]

abbrev From : HealthChecker → List Op → Type 0
From hc ops =
    ((hc.needs_rebuild ≡ true) × Unassigned ops) ⊎ (Detected hc.current_node_ids ops ⊎ IsStale ops)

run-to : (ops : List Op) (hc : HealthChecker) → (run ops hc).needs_rebuild ≡ true → From hc ops
unfolding run set_circuit_nodes
run-to [] hc h = inl (h, tt)
run-to (assign ids ∷ ops) hc h = elim (run-to ops (set_circuit_nodes ids hc) h) [
  | inl (n, _) ↦ cc
  | inr found ↦ inr (inr found)
]
run-to (observe healthy ∷ ops) hc h = elim (run-to ops (apply_poll healthy hc) h) [
  | inl (n, quiet) ↦ elim ((apply_poll_iff healthy hc).0 n) [
    | inl before ↦ inl (before, quiet)
    | inr missing ↦ inr (inl (inl (missing, quiet)))
  ]
  | inr (inl found) ↦ inr (inl (inr (rw (apply_poll-ids healthy hc) at found)))
  | inr (inr stale) ↦ inr (inr stale)
]

run_back : (ops : List Op) (hc : HealthChecker) → From hc ops → (run ops hc).needs_rebuild ≡ true
unfolding run set_circuit_nodes
run_back [] hc (inl (n, _)) = n
run_back [] hc (inr (inl none_)) = absurd none_
run_back [] hc (inr (inr none_)) = absurd none_
run_back (assign ids ∷ ops) hc (inl (n, none_)) = absurd none_
run_back (assign ids ∷ ops) hc (inr (inl none_)) = absurd none_
run_back (assign ids ∷ ops) hc (inr (inr found)) =
    run_back ops (set_circuit_nodes ids hc) (inr found)
run_back (observe healthy ∷ ops) hc (inl (n, quiet)) =
    run_back ops (apply_poll healthy hc) (inl ((apply_poll_iff healthy hc).1 (inl n), quiet))
run_back (observe healthy ∷ ops) hc (inr (inl (inl (missing, quiet)))) =
    run_back ops (apply_poll healthy hc) (inl ((apply_poll_iff healthy hc).1 (inr missing), quiet))
run_back (observe healthy ∷ ops) hc (inr (inl (inr found))) =
    run_back ops (apply_poll healthy hc) (inr (inl (rw (apply_poll-ids healthy hc) found)))
run_back (observe healthy ∷ ops) hc (inr (inr stale)) =
    run_back ops (apply_poll healthy hc) (inr (inr stale))

-- Whatever the order of polls and new circuits, a checker that starts empty asks for a rebuild
-- exactly if some poll since the last assignment of a circuit has found one of its nodes missing.
pub check_needs_rebuild_iff :
    (ops : List Op) → (check_needs_rebuild (run ops new_checker) ≡ true) ↔ IsStale ops
unfolding check_needs_rebuild
check_needs_rebuild_iff ops = (
  (λ h. elim (run-to ops new_checker h) [
    | inl (n, _) ↦ cc
    | inr (inl found) ↦ absurd (no_ids ops found)
    | inr (inr stale) ↦ stale
  ]),
  λ stale. run_back ops new_checker (inr (inr stale)),
)
  where
    no_ids : (ops' : List Op) → Detected [] ops' → ⊥
    no_ids [] d = d
    no_ids (assign _ ∷ ops') d = d
    no_ids (observe _ ∷ ops') (inl ((id, member, _), _)) = member
    no_ids (observe _ ∷ ops') (inr d) = no_ids ops' d
