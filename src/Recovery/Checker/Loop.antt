-- ===== src/Recovery/Checker/Loop.antt =====
-- When the polling loop ends, and what it has asked until then.
use torr_bsds.Base.{
  ℕ, zero, suc, ◌<◌, String, ◌<>◌, ◌≡◌, refl, ◌∙◌, ap, Bool, true, false, some, List, [], ◌∷◌, ◌++◌,
  replicate, arith, inl, inr,
}
use torr_bsds.Runtime.Json.{Json, null, Items, nil, cons, ok}
use torr_bsds.Runtime.Exec.{
  Trace, Request, get, sent, pure, lift, ◌>>=◌, ◌>>◌, Result-cases, Outcome-cases,
}
use torr_bsds.Runtime.Quiet.{Unseen, unseen_rules}
use torr_bsds.Runtime.Env.{Env, send}
use torr_bsds.Recovery.Checker.{
  HealthChecker, apply_poll, node_ids, ids_of_type, healthy_nodes, poll_once, poll_loop,
}

-- The requests of a trace, newest first.
unfoldable pub requests : Trace → List Request
requests [] = []
requests (sent r ∷ t) = r ∷ requests t
requests (_ ∷ t) = requests t

Unseen-node_ids : (xs : Items) → Unseen requests (node_ids xs)
unfolding node_ids
Unseen-node_ids nil = λ t. refl
Unseen-node_ids (cons node nodes) =
    let rest = Unseen-node_ids nodes in search (unseen_rules) depth 16

Unseen-ids_of_type :
    (nodes : Json) (node_type : String) → Unseen requests (ids_of_type nodes node_type)
unfolding ids_of_type
Unseen-ids_of_type nodes node_type = search (unseen_rules, Unseen-node_ids) depth 16

replicate-cons :
    {A : Type 0} (n : ℕ) (a : A) (l : List A) → replicate n a ++ (a ∷ l) ≡ a ∷ (replicate n a ++ l)
replicate-cons zero a l = refl
replicate-cons (suc n) a l = ap (λ r. a ∷ r) (replicate-cons n a l)

module _ (env : Env) (directory_url : String) where
  -- The one request of a round.
  abbrev pub nodes_request : Request
  nodes_request = get (directory_url <> "/nodes") null 10

  healthy_nodes-requests :
      (t : Trace) → requests (healthy_nodes env directory_url t).1 ≡ nodes_request ∷ requests t
  unfolding healthy_nodes send requests
  healthy_nodes-requests t = elim (Result-cases (env.http t nodes_request)) [
    | inr (x, e) ↦ rw e refl
    | inl (resp, e) ↦
        let after : Unseen requests (do
          lift (env.raise_for_status resp)
          nodes ← lift resp.json
          guards ← ids_of_type nodes "guard"
          relays ← ids_of_type nodes "relay"
          exits ← ids_of_type nodes "exit"
          pure (guards ++ (relays ++ exits))) =
          search (unseen_rules, Unseen-ids_of_type) depth 24 in
        rw e (after (sent nodes_request ∷ t))
  ]

  -- A round returns, whatever the directory answers.
  poll_once-returns :
      (hc : HealthChecker) (t : Trace)
      → (hc' : HealthChecker) × (u : Trace) × (poll_once env directory_url hc t ≡ (ok hc', u))
        × (requests u ≡ nodes_request ∷ requests t)
  unfolding poll_once
  poll_once-returns hc t =
      let asked = healthy_nodes-requests t in
      elim (Outcome-cases (healthy_nodes env directory_url t)) [
        | inl (healthy, u, e) ↦ (apply_poll healthy hc, u, rw e refl, rw e at asked)
        | inr (x, u, e) ↦ (hc, u, rw e refl, rw e at asked)
      ]

  -- The answers of the waits from this round on: so many times that the flag is not set, and then
  -- that it is.
  abbrev pub StopsAfter : (ℕ → Bool) → ℕ → ℕ → Type 0
  StopsAfter stopped round zero = stopped round ≡ true
  StopsAfter stopped round (suc n) = (stopped round ≡ false) × StopsAfter stopped (suc round) n

  poll_loop_from :
      (stopped : ℕ → Bool) (n fuel round : ℕ) (hc : HealthChecker) (t : Trace)
      → StopsAfter stopped round n
      → n < fuel
      → (hc' : HealthChecker) × (u : Trace) × (poll_loop env directory_url stopped fuel round hc t
          ≡ (ok (some hc'), u))
        × (requests u ≡ replicate n nodes_request ++ requests t)
  unfolding poll_loop
  poll_loop_from stopped n zero round hc t h enough = absurd (omega arith)
  poll_loop_from stopped zero (suc fuel) round hc t h enough = (hc, t, rw h refl, refl)
  poll_loop_from stopped (suc n) (suc fuel) round hc t (h, hs) enough =
      let (hc₁, t₁, e, asked) = poll_once-returns hc t in
      let (hc₂, t₂, f, asked') =
        poll_loop_from stopped n fuel (suc round) hc₁ t₁ hs (omega arith) in
      (
        hc₂,
        t₂,
        rw (h, e) f,
        asked'
            ∙ ap (λ l. replicate n nodes_request ++ l) asked
            ∙ replicate-cons n nodes_request (requests t),
      )

  -- The polling loop ends: if the stop flag is found set after a number of waits, the loop returns
  -- after as many rounds, each of which has sent one request for the nodes, whatever the
  -- directory answers or raises meanwhile; one step more than the rounds is enough fuel.
  pub poll_loop-ends :
      (stopped : ℕ → Bool) (n fuel : ℕ) (hc : HealthChecker) (t : Trace)
      → StopsAfter stopped 0 n
      → n < fuel
      → (hc' : HealthChecker) × (u : Trace) × (poll_loop env directory_url stopped fuel 0 hc t
          ≡ (ok (some hc'), u))
        × (requests u ≡ replicate n nodes_request ++ requests t)
  poll_loop-ends stopped n fuel hc t = poll_loop_from stopped n fuel 0 hc t
