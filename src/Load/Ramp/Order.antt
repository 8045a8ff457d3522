-- ===== src/Load/Ramp/Order.antt =====
-- In which order the ramp judges the steps.
use torr_bsds.Base.{
  ℕ, zero, suc, ◌+◌, ◌-◌, ◌*◌, ◌/◌, ◌≤◌, ◌<◌, ◌≡◌, refl, ◌∙◌, Option-cases, inl, inr, ◌⊎◌, false,
  not, ◌&&◌, ◌||◌, Option, none, some, List, [], ◌∷◌, ◌++◌, ltb, ◌==◌, arith, All, Bool-cases,
}
use native.Mathlib.Nat.{mul-le-mul_right, le-div_iff_mul-le, div-mul-le_self, div-zero}
use torr_bsds.Load.Shape.{second}
use torr_bsds.Load.Ramp.{
  Floats, Stats, Settings, StepRecord, Ramp, start, make_record, add_record, sample_step,
  step_index, users_at, was_sampled, sample_transition, tick,
}
use torr_bsds.Load.Ramp.Records.{run, All-snoc, tick_cases}

module _ (F : Floats) (c : Settings F) where
  -- Each record is of at least one step more than the one before it.
  abbrev pub IsClimbing : List (StepRecord F) → Type 0
  IsClimbing [] = Unit
  IsClimbing (r ∷ []) = Unit
  IsClimbing (r ∷ r' ∷ l) = (r.users + c.step_size ≤ r'.users) × IsClimbing (r' ∷ l)

  -- The run time does not go back.
  abbrev pub IsForward : ℕ → List (ℕ × Option (Stats F)) → Type 0
  IsForward elapsed [] = Unit
  IsForward elapsed ((next, _) ∷ ticks) = (elapsed ≤ next) × IsForward next ticks

  -- One more step than the record's is no more than these users.
  abbrev IsBelow : ℕ → StepRecord F → Type 0
  IsBelow users r = r.users + c.step_size ≤ users

  IsClimbing-snoc :
      (rs : List (StepRecord F)) (r : StepRecord F)
      → IsClimbing rs
      → All (IsBelow r.users) rs
      → IsClimbing (rs ++ (r ∷ []))
  IsClimbing-snoc [] r h b = tt
  IsClimbing-snoc (r₁ ∷ []) r h b = (b.0, tt)
  IsClimbing-snoc (r₁ ∷ r₂ ∷ rs) r h b = (h.0, IsClimbing-snoc (r₂ ∷ rs) r h.1 b.1)

  All-IsBelow :
      {m n : ℕ} (rs : List (StepRecord F)) → m ≤ n → All (IsBelow m) rs → All (IsBelow n) rs
  All-IsBelow [] h b = tt
  All-IsBelow (r ∷ rs) h b = (omega arith, All-IsBelow rs h b.1)

  -- The records so far are of steps below the one last sampled, which is not past this one.
  record InOrder (step_idx : ℕ) (s : Ramp F) : Type 0 where
    climbing : IsClimbing s.step_records
    sampled :
        ((s.last_sampled_step ≡ none) × (s.step_records ≡ []))
        ⊎ ((last : ℕ) × (s.last_sampled_step ≡ some last)
            × (last ≤ step_idx)
            × All (IsBelow (users_at F c last)) s.step_records)

  add_record-records :
      (step : StepRecord F) (p95 err_rate : F.Float) (s : Ramp F)
      → let s' = add_record F c step p95 err_rate s in
        (s'.step_records ≡ s.step_records ++ (step ∷ []))
        × (s'.last_sampled_step ≡ s.last_sampled_step)
  unfolding add_record
  add_record-records step p95 err_rate s =
      elim (Bool-cases (F.gt p95 c.p95_threshold_ms || F.gt err_rate c.error_rate_threshold)) [
        | inl fail ↦ rw fail (refl, refl)
        | inr pass ↦ rw pass (refl, refl)
      ]

  -- The records, and what is known of them, are passed on to a later step.
  InOrder-later : {i j : ℕ} {s : Ramp F} → i ≤ j → InOrder i s → InOrder j s
  InOrder-later h order = record {
    climbing = order.climbing;
    sampled = elim order.sampled [
      | inl fresh ↦ inl fresh
      | inr (last, e, bound, below) ↦ inr (last, e, omega arith, below)
    ];
  }

  -- Steps that are not sampled twice are farther apart than one.
  users_at-le : (i j : ℕ) → i ≤ j → users_at F c i ≤ users_at F c j
  users_at-le i j h = omega (arith, mul-le-mul_right c.step_size h)

  users_at-before : (i : ℕ) → 0 < i → users_at F c (i - 1) + c.step_size ≡ users_at F c i
  users_at-before zero h = grind arith
  users_at-before (suc i) h = ground arith

  -- All records are below the step before a new one.
  InOrder-IsBelow :
      (i : ℕ) (s : Ramp F)
      → InOrder i s
      → was_sampled F s.last_sampled_step i ≡ false
      → 0 < i
      → All (IsBelow (users_at F c (i - 1))) s.step_records
  InOrder-IsBelow i s order new positive = elim order.sampled [
    | inl (_, none_yet) ↦ rw none_yet tt
    | inr (last, e, bound, below) ↦
        let differs : (i == last) ≡ false = rw e at new in
        let before : last ≤ i - 1 = ground arith in
        All-IsBelow s.step_records (users_at-le last (i - 1) before) below
  ]

  -- The step just sampled, with or without a record.
  InOrder-recorded :
      (i : ℕ) (step : StepRecord F) (p95 err_rate : F.Float) (s : Ramp F)
      → s.last_sampled_step ≡ some i
      → IsClimbing s.step_records
      → All (IsBelow step.users) s.step_records
      → step.users + c.step_size ≡ users_at F c i
      → InOrder i (add_record F c step p95 err_rate s)
  InOrder-recorded i step p95 err_rate s last climbing below next =
      let (records, kept) = add_record-records step p95 err_rate s in
      let under : step.users ≤ users_at F c i = omega arith in
      record {
        climbing = rw records (IsClimbing-snoc s.step_records step climbing below);
        sampled = inr (
          i,
          kept ∙ last,
          omega arith,
          rw records (
              All-snoc (IsBelow (users_at F c i)) s.step_records step
                (All-IsBelow s.step_records under below) (omega arith)),
        );
      }

  sample_step-InOrder :
      (i : ℕ) (runner : Option (Stats F)) (users elapsed : ℕ) (s : Ramp F)
      → s.last_sampled_step ≡ some i
      → IsClimbing s.step_records
      → All (IsBelow users) s.step_records
      → users + c.step_size ≡ users_at F c i
      → InOrder i (sample_step F c runner users elapsed s)
  unfolding sample_step make_record
  sample_step-InOrder i runner users elapsed s last climbing below next =
      let skipped : InOrder i s = record {
        climbing = climbing;
        sampled = inr (i, last, omega arith, All-IsBelow s.step_records (omega arith) below);
      } in
      elim (Option-cases runner) [
        | inl e ↦ rw e skipped
        | inr (stats, e) ↦ elim (Bool-cases (stats.num_requests + stats.num_failures == 0)) [
          | inl idle ↦ rw (e, idle) skipped
          | inr busy ↦ rw (e, busy) (InOrder-recorded i _ _ _ s last climbing below next)
        ]
      ]

  sample_transition-InOrder :
      (runner : Option (Stats F)) (elapsed : ℕ) (s : Ramp F)
      → InOrder (step_index F c elapsed) s
      → InOrder (step_index F c elapsed) (sample_transition F c runner elapsed s)
  unfolding sample_transition
  sample_transition-InOrder runner elapsed s order =
      let i = step_index F c elapsed in
      elim (Bool-cases (ltb 0 i && not (was_sampled F s.last_sampled_step i))) [
        | inr old ↦ rw old order
        | inl due ↦
            let positive : 0 < i = ground arith in
            let new : was_sampled F s.last_sampled_step i ≡ false = ground arith in
            rw due (
              sample_step-InOrder i runner _ elapsed (record s { last_sampled_step = some i }) refl
                order.climbing (InOrder-IsBelow i s order new positive)
                (users_at-before i positive))
      ]

  tick-InOrder :
      (runner : Option (Stats F)) (elapsed : ℕ) (s : Ramp F)
      → InOrder (step_index F c elapsed) s
      → InOrder (step_index F c elapsed) (tick F c runner elapsed s).1
  unfolding tick
  tick-InOrder runner elapsed s order =
      tick_cases (InOrder (step_index F c elapsed)) s.breached _
        (sample_transition F c runner elapsed s).breached _ order
        (λ _ _. sample_transition-InOrder runner elapsed s order)

  step_index-le : (m n : ℕ) → m ≤ n → step_index F c m ≤ step_index F c n
  step_index-le m n h = div_mono (c.step_duration * second)
    where
      div_mono : (k : ℕ) → m / k ≤ n / k
      div_mono zero = rw (div-zero m, div-zero n) (omega arith)
      div_mono (suc k) =
          (le-div_iff_mul-le (omega arith)).1 (omega (arith, div-mul-le_self m (suc k)))

  run_from-InOrder :
      (elapsed : ℕ) (ticks : List (ℕ × Option (Stats F))) (s : Ramp F)
      → IsForward elapsed ticks
      → InOrder (step_index F c elapsed) s
      → IsClimbing (run F c ticks s).step_records
  unfolding run
  run_from-InOrder elapsed [] s h order = order.climbing
  run_from-InOrder elapsed ((next, runner) ∷ ticks) s (h, hs) order =
      run_from-InOrder next ticks _ hs
        (tick-InOrder runner next s (InOrder-later (step_index-le elapsed next h) order))

  -- If the run time does not go back, each step that the ramp records has at least a step size
  -- more users than the one recorded before it: no step is judged twice, and none out of order.
  pub run-IsClimbing :
      (ticks : List (ℕ × Option (Stats F)))
      → IsForward 0 ticks
      → IsClimbing (run F c ticks (start F)).step_records
  run-IsClimbing ticks h =
      run_from-InOrder 0 ticks (start F) h (record { climbing = tt; sampled = inl (refl, refl) })
