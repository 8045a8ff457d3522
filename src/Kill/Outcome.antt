-- ===== src/Kill/Outcome.antt =====
-- What the failure injection stops, and what its exit status says.
use torr_bsds.Base.{
  ℕ, String, Bool, true, false, Option, none, some, List, [], ◌∷◌, ◌≡◌, refl, sym, ◌∙◌, ap, inl,
  inr, str_eq, ltb, if◌then◌else◌, Bool-cases, arith,
}
use torr_bsds.Runtime.Json.{Json, str, Items, nil, cons, Result, ok, system_exit}
use torr_bsds.Runtime.Exec.{Exec, Trace, called, stop_task, Result-cases, pure, raise}
use torr_bsds.Runtime.Returns.{bind_ok}
use torr_bsds.Runtime.Quiet.{Unseen, Unseen-pure, Unseen-bind, Unseen-if, unseen_rules}
use torr_bsds.Kill.{
  Aws, Args, node_id_of_environment, node_id_of_containers, find_running_task, kill_task, wait,
  read_now, save, save_event, kill_found, kill_if_found, main,
}

-- The tasks that a run has asked ECS to stop, newest first.
unfoldable pub stops : Trace → List (String × String)
stops [] = []
stops (called (stop_task cluster task) ∷ t) = (cluster, task) ∷ stops t
stops (_ ∷ t) = stops t

Unseen-node_id_of_environment : (v : Json) (xs : Items) → Unseen stops (node_id_of_environment v xs)
unfolding node_id_of_environment
Unseen-node_id_of_environment v nil = Unseen-pure stops v
Unseen-node_id_of_environment v (cons x xs) =
    let rest = Unseen-node_id_of_environment v xs in search (unseen_rules) depth 12

Unseen-node_id_of_containers : (v : Json) (xs : Items) → Unseen stops (node_id_of_containers v xs)
unfolding node_id_of_containers
Unseen-node_id_of_containers v nil = Unseen-pure stops v
Unseen-node_id_of_containers v (cons x xs) =
    let rest : (w : Json) → Unseen stops (node_id_of_containers w xs) =
      λ w. Unseen-node_id_of_containers w xs in
    search (unseen_rules, Unseen-node_id_of_environment) depth 16

-- What an action leaves unseen is the same where it ends.
stops-Unseen :
    {A : Type 0} (m : Exec A) (t : Trace) {r : Result A} {u : Trace}
    → Unseen stops m
    → m t ≡ (r, u)
    → stops u ≡ stops t
stops-Unseen m t h e = sym (ap (λ x. stops x.1) e) ∙ h t

module _ (aws : Aws) where
  Unseen-find_running_task :
      (cluster service : String) → Unseen stops (find_running_task aws cluster service)
  unfolding find_running_task stops
  Unseen-find_running_task cluster service =
      let containers = Unseen-node_id_of_containers (str "") in
      search (unseen_rules, containers) depth 24

  Unseen-kill_task :
      (cluster task_id : String) (dry : Bool)
      → dry ≡ true
      → Unseen stops (kill_task aws cluster task_id dry)
  unfolding kill_task
  Unseen-kill_task cluster task_id true h = λ t. refl
  Unseen-kill_task cluster task_id false h = absurd (ground arith)

  Unseen-wait : (delay : ℕ) → Unseen stops (wait aws delay)
  unfolding wait stops
  Unseen-wait delay = Unseen-if stops (ltb 0 delay) _ _ (λ t. refl) (λ t. refl)

  Unseen-read_now : Unseen stops (read_now aws)
  unfolding read_now stops
  Unseen-read_now t = refl

  Unseen-save_event : (args : Args) (event : Json) → Unseen stops (save_event aws args event)
  unfolding save_event save stops
  Unseen-save_event args event = Unseen-if stops (str_eq args.output "") _ _ (λ t. refl) (λ t. refl)

  Unseen-kill_found :
      (args : Args) (task_id : String) (node_id : Json)
      → args.dry_run ≡ true
      → Unseen stops (kill_found aws args task_id node_id)
  unfolding kill_found stops
  Unseen-kill_found args task_id node_id dry =
      let kill : Unseen stops (kill_task aws args.cluster task_id args.dry_run) =
        Unseen-kill_task args.cluster task_id args.dry_run dry in
      search (unseen_rules, kill, Unseen-wait, Unseen-read_now, Unseen-save_event) depth 24

  -- A dry run asks ECS to stop nothing, however it ends.
  pub main-dry_run :
      (args : Args) (t : Trace) → args.dry_run ≡ true → stops (main aws args t).1 ≡ stops t
  unfolding main kill_if_found
  main-dry_run args t dry =
      Unseen-bind {seen = stops} (find_running_task aws args.cluster args.service)
        (kill_if_found aws args) (Unseen-find_running_task args.cluster args.service) after t
    where
      after : (found : Option (String × Json)) → Unseen stops (kill_if_found aws args found)
      after none = λ u. refl
      after (some (task_id, node_id)) =
          Unseen-if stops (str_eq task_id "") _ _ (λ u. refl)
            (Unseen-kill_found args task_id node_id dry)

  -- How a run that ended well dealt with the task that it found.
  pub data IsHandled (args : Args) (task_id : String) (old new : List (String × String))
      : Type 0 where
    rehearsed : args.dry_run ≡ true → new ≡ old → IsHandled args task_id old new
    accepted :
        (w : Trace)
        → args.dry_run ≡ false
        → aws.stop_task w args.cluster task_id ≡ ok tt
        → new ≡ (args.cluster, task_id) ∷ old
        → IsHandled args task_id old new

  kill_task-true :
      (args : Args) (task_id : String) (dry : Bool) (t u : Trace)
      → args.dry_run ≡ dry
      → kill_task aws args.cluster task_id dry t ≡ (ok true, u)
      → IsHandled args task_id (stops t) (stops u)
  unfolding kill_task stops
  kill_task-true args task_id true t u same h = rehearsed same (ap (λ r. stops r.1) (sym h))
  kill_task-true args task_id false t u same h =
      elim (Result-cases (aws.stop_task t args.cluster task_id)) [
        | inl (_, done) ↦ accepted t same done (ap (λ r. stops r.1) (sym (rw done at h)))
        | inr (x, failed) ↦ elim (Bool-cases (aws.is_aws_error x)) [
          | inl caught ↦ absurd (cc (rw (failed, caught) at h))
          | inr passed ↦ absurd (cc (rw (failed, passed) at h))
        ]
      ]

  kill_found-ok :
      (args : Args) (task_id : String) (node_id : Json) (t u : Trace)
      → kill_found aws args task_id node_id t ≡ (ok tt, u)
      → IsHandled args task_id (stops t) (stops u)
  unfolding kill_found
  kill_found-ok args task_id node_id t u h = bind_ok (wait aws args.delay) _ t h λ _ v₁ e₁ h₁.
      bind_ok (read_now aws) _ v₁ h₁ λ kill_time v₂ e₂ h₂.
        bind_ok (kill_task aws args.cluster task_id args.dry_run) _ v₂ h₂ λ success v₃ e₃ h₃.
          bind_ok (save_event aws args _) _ v₃ h₃ λ _ v₄ e₄ h₄.
            let well : success ≡ true = success_of success v₄ u h₄ in
            let old =
              stops-Unseen (read_now aws) v₁ Unseen-read_now e₂
              ∙ stops-Unseen (wait aws args.delay) t (Unseen-wait args.delay) e₁ in
            let new =
              ap stops (same_of success v₄ u h₄)
              ∙ stops-Unseen (save_event aws args _) v₃ (Unseen-save_event args _) e₄ in
            let handled = kill_task-true args task_id args.dry_run v₂ v₃ refl (rw well at e₃) in
            rw (new, sym old) handled
    where
      success_of :
          (success : Bool) (v w : Trace)
          → (if success then pure tt else raise (system_exit 1)) v ≡ (ok tt, w)
          → success ≡ true
      success_of true v w h = refl
      success_of false v w h = cc

      same_of :
          (success : Bool) (v w : Trace)
          → (if success then pure tt else raise (system_exit 1)) v ≡ (ok tt, w)
          → w ≡ v
      same_of true v w h = cc
      same_of false v w h = cc

  -- A run that ends well found a task with an ID. It stopped nothing if it was a dry run, and
  -- otherwise asked ECS once to stop that task, in the cluster of its arguments, which ECS
  -- accepted.
  pub main-ok :
      (args : Args) (t u : Trace)
      → main aws args t ≡ (ok tt, u)
      → (task_id : String) × (node_id : Json) × (v : Trace) × (find_running_task aws args.cluster
            args.service t
          ≡ (ok (some (task_id, node_id)), v))
        × (str_eq task_id "" ≡ false)
        × IsHandled args task_id (stops t) (stops u)
  unfolding main kill_if_found
  main-ok args t u h =
      bind_ok (find_running_task aws args.cluster args.service) _ t h λ found v e h₁.
        named found v
          (stops-Unseen (find_running_task aws args.cluster args.service) t
            (Unseen-find_running_task args.cluster args.service) e)
          e h₁
    where
      named :
          (found : Option (String × Json)) (v : Trace)
          → stops v ≡ stops t
          → find_running_task aws args.cluster args.service t ≡ (ok found, v)
          → kill_if_found aws args found v ≡ (ok tt, u)
          → (task_id : String) × (node_id : Json) × (v : Trace) × (find_running_task aws
                args.cluster args.service t
              ≡ (ok (some (task_id, node_id)), v))
            × (str_eq task_id "" ≡ false)
            × IsHandled args task_id (stops t) (stops u)
      named none v same e h₁ = cc
      named (some (task_id, node_id)) v same e h₁ = elim (Bool-cases (str_eq task_id "")) [
        | inl empty ↦ absurd (cc (rw empty at h₁))
        | inr some_id ↦ (
          task_id,
          node_id,
          v,
          e,
          some_id,
          rw⁻¹ same (kill_found-ok args task_id node_id v u (rw some_id at h₁)),
        )
      ]
