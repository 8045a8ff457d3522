-- ===== src/Load/Shape/Stages.antt =====
-- Which stage a run time falls into.
use torr_bsds.Base.{
  ℕ, suc, ◌+◌, ◌-◌, ◌*◌, ◌/◌, ◌≤◌, ◌<◌, ◌≡◌, refl, max, List, [], ◌∷◌, ltb, arith, get_elem?,
  Bool-cases, inl, inr,
}
use mathlib.Core.Option
use torr_bsds.Load.Shape.{second, Target, tick_from, stepped_tick}

abbrev pub target : ℕ → Target
target users = (users, max users 10)

div_of_bounds : (e d q : ℕ) → q * d ≤ e → e < (q + 1) * d → e / d ≡ q
div_of_bounds e d q h k = grind arith

div_after : (e d q : ℕ) → 0 < d → q * d ≤ e → q ≤ e / d
div_after e d q p h = grind arith

tick_from-stage :
    (i : ℕ) (levels : List ℕ) (stage_duration elapsed : ℕ)
    → 0 < stage_duration
    → i * (stage_duration * second) ≤ elapsed
    → tick_from i levels stage_duration elapsed
      ≡ Option.map target (get_elem? levels (elapsed / (stage_duration * second) - i))
unfolding tick_from
tick_from-stage i [] stage_duration elapsed p h = refl
tick_from-stage i (users ∷ levels) stage_duration elapsed p h =
    let d = stage_duration * second in
    elim (Bool-cases (ltb elapsed ((i + 1) * d))) [
      | inl early ↦
          let q : elapsed / d ≡ i = div_of_bounds elapsed d i h (ground arith) in
          let at : elapsed / d - i ≡ 0 = omega arith in rw (early, at)
      | inr late ↦
          let q : i + 1 ≤ elapsed / d = div_after elapsed d (i + 1) (omega arith) (ground arith) in
          let at : elapsed / d - i ≡ suc (elapsed / d - (i + 1)) = omega arith in
          rw (late, at) (tick_from-stage (i + 1) levels stage_duration elapsed p (ground arith))
    ]

-- With stages that take time, the stepped shape asks for the level whose index is the number
-- of whole stages that have passed, at a spawn rate of at least 10, and stops once there is
-- no such level.
pub stepped_tick-stage :
    (levels : List ℕ) (stage_duration elapsed : ℕ)
    → 0 < stage_duration
    → stepped_tick levels stage_duration elapsed
      ≡ Option.map target (get_elem? levels (elapsed / (stage_duration * second)))
unfolding stepped_tick
stepped_tick-stage levels stage_duration elapsed p =
    let whole : elapsed / (stage_duration * second) - 0 ≡ elapsed / (stage_duration * second) =
      omega arith in
    rw whole at (tick_from-stage 0 levels stage_duration elapsed p (omega arith))
