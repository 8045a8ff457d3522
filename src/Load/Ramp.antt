-- ===== src/Load/Ramp.antt =====
-- `ThroughputRampShape` of experiments/locust/throughput_scaling.py. A run time is in microseconds.
-- Floating-point numbers are a parameter: the code only compares, divides and rounds them.
pub mod Records
pub mod Room
pub mod Order
use torr_bsds.Base.{
  ℕ, ◌+◌, ◌-◌, ◌*◌, ◌/◌, max, Bool, true, false, not, ◌&&◌, ◌||◌, Option, none, some, List, [], ◌∷◌,
  ◌++◌, ◌≡◌, ltb, ◌==◌, if◌then◌else◌,
}
use torr_bsds.Load.Shape.{second, Target}

pub record Floats : Type 1 where
  pub Float : Type 0
  pub le : Float → Float → Bool
  pub gt : Float → Float → Bool
  pub zero : Float
  -- a quotient of integers
  pub ratio : ℕ → ℕ → Float
  pub round : Float → ℕ → Float

-- What is not NaN compares one way or the other.
pub record IsOrdered (F : Floats) : Type 0 where
  pub gt-le : (a b : F.Float) → F.gt a b ≡ not (F.le a b)

module _ (F : Floats) where
  open F use {Float, le, gt, ratio, round}

  -- What the shape reads of `runner.stats.total`; a percentile is `None` if there is no request.
  pub record Stats : Type 0 where
    pub num_requests : ℕ
    pub num_failures : ℕ
    pub current_rps : Float
    pub p50 : Option Float
    pub p95 : Option Float
    pub p99 : Option Float

  pub record Settings : Type 0 where
    pub relay_count : ℕ
    pub min_users : ℕ
    pub max_users : ℕ
    pub step_size : ℕ
    pub step_duration : ℕ
    pub p95_threshold_ms : Float
    pub error_rate_threshold : Float

  pub record StepRecord : Type 0 where
    pub relay_count : ℕ
    pub users : ℕ
    pub elapsed_s : Float
    pub rps : Float
    pub p50_ms : Float
    pub p95_ms : Float
    pub p99_ms : Float
    pub requests : ℕ
    pub failures : ℕ
    pub error_rate : Float
    pub within_bounds : Bool

  -- The fields of the shape, and the module's `_step_records` and `_ceiling_record`. A
  -- `_last_sampled_step` of -1 is `none`.
  pub record Ramp : Type 0 where
    pub last_sampled_step : Option ℕ
    pub breached : Bool
    pub step_records : List StepRecord
    pub ceiling_record : Option StepRecord

  abbrev pub start : Ramp
  start = record {
    last_sampled_step = none;
    breached = false;
    step_records = [];
    ceiling_record = none;
  }

  -- `percentile or 0`
  abbrev pub or_zero : Option Float → Float
  or_zero none = F.zero
  or_zero (some x) = x

  abbrev pub error_rate_of : Stats → Float
  error_rate_of stats = ratio stats.num_failures (stats.num_requests + stats.num_failures)

  unfoldable pub make_record : Settings → ℕ → ℕ → Stats → StepRecord
  make_record c users elapsed stats = record {
    relay_count = c.relay_count;
    users = users;
    elapsed_s = round (ratio elapsed second) 1;
    rps = round stats.current_rps 3;
    p50_ms = or_zero stats.p50;
    p95_ms = round (or_zero stats.p95) 1;
    p99_ms = or_zero stats.p99;
    requests = stats.num_requests;
    failures = stats.num_failures;
    error_rate = round (error_rate_of stats) 4;
    within_bounds =
        le (or_zero stats.p95) c.p95_threshold_ms
        && le (error_rate_of stats) c.error_rate_threshold;
  }

  -- The block under the lock.
  unfoldable pub add_record : Settings → StepRecord → Float → Float → Ramp → Ramp
  add_record c step p95 err_rate s =
      let s' = record s { step_records = s.step_records ++ (step ∷ []) } in
      if gt p95 c.p95_threshold_ms || gt err_rate c.error_rate_threshold
      then record s' { breached = true }
      else record s' { ceiling_record = some step }

  -- `_sample_step`; the runner's statistics are `none` if there is no runner
  unfoldable pub sample_step : Settings → Option Stats → ℕ → ℕ → Ramp → Ramp
  sample_step c none users elapsed s = s
  sample_step c (some stats) users elapsed s =
      if stats.num_requests + stats.num_failures == 0
      then s
      else add_record c (make_record c users elapsed stats) (or_zero stats.p95)
          (error_rate_of stats) s

  abbrev pub step_index : Settings → ℕ → ℕ
  step_index c elapsed = elapsed / (c.step_duration * second)

  abbrev pub users_at : Settings → ℕ → ℕ
  users_at c step_idx = c.min_users + step_idx * c.step_size

  abbrev was_sampled : Option ℕ → ℕ → Bool
  was_sampled none step_idx = false
  was_sampled (some last) step_idx = step_idx == last

  -- The sampling at a step transition.
  unfoldable pub sample_transition : Settings → Option Stats → ℕ → Ramp → Ramp
  sample_transition c runner elapsed s =
      let step_idx = step_index c elapsed in
      if ltb 0 step_idx && not (was_sampled s.last_sampled_step step_idx)
      then sample_step c runner (users_at c (step_idx - 1)) elapsed
          (record s { last_sampled_step = some step_idx })
      else s

  unfoldable pub tick : Settings → Option Stats → ℕ → Ramp → Option Target × Ramp
  tick c runner elapsed s =
      let users = users_at c (step_index c elapsed) in
      let s' = sample_transition c runner elapsed s in
      if s.breached
      then (none, s)
      else if ltb c.max_users users
      then (none, s)
      else if s'.breached
      then (none, s')
      else (some (users, max c.step_size 10), s')
