-- ===== src/Load/Ramp/Records.antt =====
-- What the ramp has recorded after any sequence of ticks.
use torr_bsds.Base.{
  ℕ, ◌+◌, ◌≡◌, refl, sym, inl, inr, Bool, true, false, not, ◌&&◌, ◌||◌, if◌then◌else◌, Option, none,
  some, List, [], ◌∷◌, ◌++◌, ◌==◌, arith, All, Bool-cases,
}
use torr_bsds.Load.Shape.{Target}
use torr_bsds.Load.Ramp.{
  Floats, IsOrdered, Stats, Settings, StepRecord, Ramp, start, or_zero, error_rate_of, make_record,
  add_record, sample_step, step_index, sample_transition, tick,
}

module _ {A : Type 0} where
  abbrev pub last? : List A → Option A
  last? [] = none
  last? (x ∷ []) = some x
  last? (x ∷ y ∷ l) = last? (y ∷ l)

  last?-append : (xs : List A) (x : A) → last? (xs ++ (x ∷ [])) ≡ some x
  last?-append [] x = refl
  last?-append (y ∷ []) x = refl
  last?-append (y ∷ z ∷ l) x = last?-append (z ∷ l) x

  pub All-snoc : (P : A → Type 0) (xs : List A) (x : A) → All P xs → P x → All P (xs ++ (x ∷ []))
  All-snoc P [] x h p = (p, tt)
  All-snoc P (y ∷ xs) x h p = (h.0, All-snoc P xs x h.1 p)

-- The ramp after a tick is as before, or as the sampling left it.
pub tick_cases :
    {F : Floats} (P : Ramp F → Type 0) (over past fell : Bool) {s s' : Ramp F} (t : Target)
    → P s
    → (over ≡ false → past ≡ false → P s')
    → let r : Option Target × Ramp F =
        if over
        then (none, s)
        else if past
        then (none, s)
        else if fell
        then (none, s')
        else (some t, s') in
      P r.1
tick_cases P true past fell t h k = h
tick_cases P false true fell t h k = h
tick_cases P false false true t h k = k refl refl
tick_cases P false false false t h k = k refl refl

module _ (F : Floats) (c : Settings F) where
  -- The ticks of a run: the run time and the runner's statistics at each.
  unfoldable pub run : List (ℕ × Option (Stats F)) → Ramp F → Ramp F
  run [] s = s
  run ((elapsed, runner) ∷ ticks) s = run ticks (tick F c runner elapsed s).1

module _ (F : Floats) (ordered : IsOrdered F) (c : Settings F) where
  abbrev pub AllWithin : List (StepRecord F) → Type 0
  AllWithin = All (λ r. r.within_bounds ≡ true)

  -- Either no step has broken a threshold and the ceiling is the last step recorded, or the last
  -- step recorded has, and the ceiling is the one before it.
  pub data IsHistory (s : Ramp F) : Type 0 where
    climbing :
        s.breached ≡ false
        → AllWithin s.step_records
        → s.ceiling_record ≡ last? s.step_records
        → IsHistory s
    stopped :
        (before : List (StepRecord F)) (bad : StepRecord F)
        → s.breached ≡ true
        → s.step_records ≡ before ++ (bad ∷ [])
        → bad.within_bounds ≡ false
        → AllWithin before
        → s.ceiling_record ≡ last? before
        → IsHistory s

  -- The two tests of the code: the one recorded as `within_bounds`, and the one that stops.
  breaks : F.Float → F.Float → Bool
  breaks p95 err_rate = F.gt p95 c.p95_threshold_ms || F.gt err_rate c.error_rate_threshold

  breaks-within :
      (p95 err_rate : F.Float)
      → breaks p95 err_rate
        ≡ not (F.le p95 c.p95_threshold_ms && F.le err_rate c.error_rate_threshold)
  unfolding breaks
  breaks-within p95 err_rate =
      rw (ordered.gt-le p95 c.p95_threshold_ms, ordered.gt-le err_rate c.error_rate_threshold)
        (ground arith)

  add_record-IsHistory :
      (step : StepRecord F) (p95 err_rate : F.Float) (s : Ramp F)
      → breaks p95 err_rate ≡ not step.within_bounds
      → s.breached ≡ false
      → IsHistory s
      → IsHistory (add_record F c step p95 err_rate s)
  unfolding add_record breaks
  add_record-IsHistory step p95 err_rate s h going (stopped before bad b r w a e) = cc
  add_record-IsHistory step p95 err_rate s h going (climbing b a e) =
      elim (Bool-cases step.within_bounds) [
        | inl within ↦
            let pass : (F.gt p95 c.p95_threshold_ms || F.gt err_rate c.error_rate_threshold)
                ≡ false =
              rw within at h in
            rw pass (
              climbing going (All-snoc (λ r. r.within_bounds ≡ true) s.step_records step a within)
                (sym (last?-append s.step_records step)))
        | inr outside ↦
            let fail : (F.gt p95 c.p95_threshold_ms || F.gt err_rate c.error_rate_threshold)
                ≡ true =
              rw outside at h in
            rw fail (stopped s.step_records step refl refl outside a e)
      ]

  sample_step-IsHistory :
      (runner : Option (Stats F)) (users elapsed : ℕ) (s : Ramp F)
      → s.breached ≡ false
      → IsHistory s
      → IsHistory (sample_step F c runner users elapsed s)
  unfolding sample_step make_record
  sample_step-IsHistory none users elapsed s going h = h
  sample_step-IsHistory (some stats) users elapsed s going h =
      elim (Bool-cases (stats.num_requests + stats.num_failures == 0)) [
        | inl idle ↦ rw idle h
        | inr busy ↦ rw busy (
            add_record-IsHistory _ _ _ s
              (breaks-within (or_zero F stats.p95) (error_rate_of F stats)) going h)
      ]

  -- Only `last_sampled_step` changes before the sampling.
  mark-IsHistory :
      (n : Option ℕ) (s : Ramp F) → IsHistory s → IsHistory (record s { last_sampled_step = n })
  mark-IsHistory n s (climbing b a e) = climbing b a e
  mark-IsHistory n s (stopped before bad b r w a e) = stopped before bad b r w a e

  sample_transition-IsHistory :
      (runner : Option (Stats F)) (elapsed : ℕ) (s : Ramp F)
      → s.breached ≡ false
      → IsHistory s
      → IsHistory (sample_transition F c runner elapsed s)
  unfolding sample_transition
  sample_transition-IsHistory runner elapsed s going h =
      if_either _ _ _
        (sample_step-IsHistory runner _ elapsed _ going
          (mark-IsHistory (some (step_index F c elapsed)) s h))
        h
    where
      if_either :
          (b : Bool) (x y : Ramp F) → IsHistory x → IsHistory y → IsHistory (if b then x else y)
      if_either true x y p q = p
      if_either false x y p q = q

  tick-IsHistory :
      (runner : Option (Stats F)) (elapsed : ℕ) (s : Ramp F)
      → IsHistory s
      → IsHistory (tick F c runner elapsed s).1
  unfolding tick
  tick-IsHistory runner elapsed s h =
      tick_cases IsHistory s.breached _ (sample_transition F c runner elapsed s).breached _ h
        (λ going _. sample_transition-IsHistory runner elapsed s going h)

  run_from-IsHistory :
      (ticks : List (ℕ × Option (Stats F))) (s : Ramp F) → IsHistory s → IsHistory (run F c ticks s)
  unfolding run
  run_from-IsHistory [] s h = h
  run_from-IsHistory ((elapsed, runner) ∷ ticks) s h =
      run_from-IsHistory ticks _ (tick-IsHistory runner elapsed s h)

  -- If no two numbers compare as NaN does, then after any sequence of ticks either all
  -- recorded steps are within the thresholds and the ceiling is the last of them, or the
  -- shape has stopped: the last recorded step is outside, those before it are within, and the
  -- ceiling is the one before it.
  pub run-IsHistory : (ticks : List (ℕ × Option (Stats F))) → IsHistory (run F c ticks (start F))
  run-IsHistory ticks = run_from-IsHistory ticks (start F) (climbing refl tt refl)
