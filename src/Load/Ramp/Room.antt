-- ===== src/Load/Ramp/Room.antt =====
-- How high the steps that the ramp judges go.
use torr_bsds.Base.{
  ℕ, zero, suc, ◌+◌, ◌-◌, ◌≤◌, ◌<◌, ◌≡◌, inl, inr, false, not, ◌&&◌, ◌||◌, Option, none, some, List,
  [], ◌∷◌, ltb, ◌==◌, arith, All, Bool-cases,
}
use torr_bsds.Load.Ramp.{
  Floats, Stats, Settings, StepRecord, Ramp, start, make_record, add_record, sample_step,
  step_index, users_at, was_sampled, sample_transition, tick,
}
use torr_bsds.Load.Ramp.Records.{run, All-snoc, tick_cases}

module _ (F : Floats) (c : Settings F) where
  -- One more step would still have been allowed.
  abbrev pub HasRoom : StepRecord F → Type 0
  HasRoom r = r.users + c.step_size ≤ c.max_users

  abbrev AllHaveRoom : Ramp F → Type 0
  AllHaveRoom s = All HasRoom s.step_records

  add_record-HasRoom :
      (step : StepRecord F) (p95 err_rate : F.Float) (s : Ramp F)
      → HasRoom step
      → AllHaveRoom s
      → AllHaveRoom (add_record F c step p95 err_rate s)
  unfolding add_record
  add_record-HasRoom step p95 err_rate s h a =
      elim (Bool-cases (F.gt p95 c.p95_threshold_ms || F.gt err_rate c.error_rate_threshold)) [
        | inl fail ↦ rw fail (All-snoc HasRoom s.step_records step a h)
        | inr pass ↦ rw pass (All-snoc HasRoom s.step_records step a h)
      ]

  sample_step-HasRoom :
      (runner : Option (Stats F)) (users elapsed : ℕ) (s : Ramp F)
      → users + c.step_size ≤ c.max_users
      → AllHaveRoom s
      → AllHaveRoom (sample_step F c runner users elapsed s)
  unfolding sample_step make_record
  sample_step-HasRoom none users elapsed s h a = a
  sample_step-HasRoom (some stats) users elapsed s h a =
      elim (Bool-cases (stats.num_requests + stats.num_failures == 0)) [
        | inl idle ↦ rw idle a
        | inr busy ↦ rw busy (add_record-HasRoom _ _ _ s h a)
      ]

  before : (i : ℕ) → 0 < i → users_at F c (i - 1) + c.step_size ≡ users_at F c i
  before zero h = grind arith
  before (suc i) h = ground arith

  sample_transition-HasRoom :
      (runner : Option (Stats F)) (elapsed : ℕ) (s : Ramp F)
      → ltb c.max_users (users_at F c (step_index F c elapsed)) ≡ false
      → AllHaveRoom s
      → AllHaveRoom (sample_transition F c runner elapsed s)
  unfolding sample_transition
  sample_transition-HasRoom runner elapsed s low a =
      elim (Bool-cases (ltb 0 i && not (was_sampled F s.last_sampled_step i))) [
        | inl due ↦
            let positive : 0 < i = ground arith in
            rw due (
              sample_step-HasRoom runner _ elapsed (record s { last_sampled_step = some i })
                (rw (before i positive) (ltb-false low)) a)
        | inr old ↦ rw old a
      ]
    where
      i : ℕ
      i = step_index F c elapsed

      ltb-false : {m n : ℕ} → ltb m n ≡ false → n ≤ m
      ltb-false h = ground arith

  tick-HasRoom :
      (runner : Option (Stats F)) (elapsed : ℕ) (s : Ramp F)
      → AllHaveRoom s
      → AllHaveRoom (tick F c runner elapsed s).1
  unfolding tick
  tick-HasRoom runner elapsed s a =
      tick_cases AllHaveRoom s.breached _ (sample_transition F c runner elapsed s).breached _ a
        (λ _ low. sample_transition-HasRoom runner elapsed s low a)

  run_from-HasRoom :
      (ticks : List (ℕ × Option (Stats F))) (s : Ramp F)
      → AllHaveRoom s
      → AllHaveRoom (run F c ticks s)
  unfolding run
  run_from-HasRoom [] s a = a
  run_from-HasRoom ((elapsed, runner) ∷ ticks) s a =
      run_from-HasRoom ticks _ (tick-HasRoom runner elapsed s a)

  -- After any sequence of ticks, every step that was recorded has room for one more step below
  -- `MAX_USERS`: a step at `MAX_USERS`, or less than one step size below it, is never judged.
  pub run-HasRoom :
      (ticks : List (ℕ × Option (Stats F))) → All HasRoom (run F c ticks (start F)).step_records
  run-HasRoom ticks = run_from-HasRoom ticks (start F) tt
