-- ===== src/Charts/Failures.antt =====
-- What the detection chart shows.
use torr_bsds.Base.{
  ℕ, ◌-◌, ◌≤◌, min, ◌≡◌, refl, sym, ap, ◌∙◌, ◌⊎◌, inl, inr, true, List, [], ◌∷◌, length, arith,
  Bool-cases,
}
use torr_bsds.Charts.{
  Sample, is_failure, failures, earliest, compute_request_loss, detection_of,
  compute_detection_time,
}

abbrev pub In : Sample → List Sample → Type 0
In r [] = ⊥
In r (r' ∷ rows) = (r ≡ r') ⊎ In r rows

earliest-In :
    (r : Sample) (rows : List Sample) → (f : Sample) × In f (r ∷ rows) × (earliest r rows ≡ f.ts)
unfolding earliest
earliest-In r [] = (r, inl refl, refl)
earliest-In r (r' ∷ rows) =
    let (f, member, least) = earliest-In r' rows in
    elim (min_cases r.ts (earliest r' rows)) [
      | inl e ↦ (r, inl refl, e)
      | inr e ↦ (f, inr member, e ∙ least)
    ]
  where
    min_cases : (a b : ℕ) → (min a b ≡ a) ⊎ (min a b ≡ b)
    min_cases a b = ground arith

earliest_le :
    (r : Sample) (rows : List Sample) (f : Sample) → In f (r ∷ rows) → earliest r rows ≤ f.ts
unfolding earliest
earliest_le r [] f (inl e) = rw e (omega arith)
earliest_le r [] f (inr i) = absurd i
earliest_le r (r' ∷ rows) f (inl e) = rw e (omega arith)
earliest_le r (r' ∷ rows) f (inr i) = omega (arith, earliest_le r' rows f i)

failures-In :
    (rows : List Sample) (r : Sample) → In r (failures rows) → In r rows × (is_failure r ≡ true)
unfolding failures
failures-In [] r i = absurd i
failures-In (r' ∷ rows) r i = elim (Bool-cases (is_failure r')) [
  | inl failed ↦ here failed (λ j. failures-In rows r j) (rw failed at i)
  | inr passed ↦ let (member, fails) = failures-In rows r (rw passed at i) in (inr member, fails)
]
  where
    here :
        is_failure r' ≡ true
        → (In r (failures rows) → In r rows × (is_failure r ≡ true))
        → In r (r' ∷ failures rows)
        → In r (r' ∷ rows) × (is_failure r ≡ true)
    here failed rest (inl e) = (inl e, rw e failed)
    here failed rest (inr j) = let (member, fails) = rest j in (inr member, fails)

failures-In_back :
    (rows : List Sample) (r : Sample) → In r rows → is_failure r ≡ true → In r (failures rows)
unfolding failures
failures-In_back [] r i h = absurd i
failures-In_back (r' ∷ rows) r (inl e) h =
    let failed : is_failure r' ≡ true = ap is_failure (sym e) ∙ h in rw failed (inl e)
failures-In_back (r' ∷ rows) r (inr i) h = elim (Bool-cases (is_failure r')) [
  | inl failed ↦ rw failed (inr (failures-In_back rows r i h))
  | inr passed ↦ rw passed (failures-In_back rows r i h)
]

-- The delay of the first failure after the kill, which is 0 for a failure before it.
pub record IsDetection (rows : List Sample) (kill_ts delay : ℕ) : Type 0 where
  pub first : Sample
  pub member : In first rows
  pub failed : is_failure first ≡ true
  pub attained : delay ≡ first.ts - kill_ts
  pub least : (r : Sample) → In r rows → is_failure r ≡ true → delay ≤ r.ts - kill_ts

detection_of-failures :
    (rows fs : List Sample) (kill_ts : ℕ)
    → failures rows ≡ fs
    → ((length fs ≡ 0) × (detection_of fs kill_ts ≡ 0))
      ⊎ IsDetection rows kill_ts (detection_of fs kill_ts)
detection_of-failures rows [] kill_ts e = inl (refl, refl)
detection_of-failures rows (r ∷ fs) kill_ts e =
    let (f, member, least) = earliest-In r fs in
    let (at, fails) = failures-In rows f (rw e member) in
    inr (record {
      first = f;
      member = at;
      failed = fails;
      attained = ap (λ n. n - kill_ts) least;
      least = λ r' i h.
          let bound = earliest_le r fs r' (rw e at (failures-In_back rows r' i h)) in omega arith;
    })

-- The detection time is 0 if no request failed; otherwise it is the delay from the kill to a
-- failed request, and no failed request has a shorter one.
pub compute_detection_time-IsDetection :
    (rows : List Sample) (kill_ts : ℕ)
    → ((compute_request_loss rows ≡ 0) × (compute_detection_time rows kill_ts ≡ 0))
      ⊎ IsDetection rows kill_ts (compute_detection_time rows kill_ts)
unfolding compute_request_loss compute_detection_time
compute_detection_time-IsDetection rows kill_ts =
    detection_of-failures rows (failures rows) kill_ts refl
