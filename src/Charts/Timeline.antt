-- ===== src/Charts/Timeline.antt =====
-- The throughput chart counts every request once.
use torr_bsds.Base.{
  ℕ, zero, suc, ◌+◌, ◌-◌, ◌/◌, ◌≤◌, ◌<◌, ◌≡◌, refl, ◌∙◌, List, [], ◌∷◌, ◌++◌, map, length, ltb,
  arith, Bool-cases, inl, inr,
}
use mathlib.Core.List.{map-append}
use torr_bsds.Load.Shape.{second}
use torr_bsds.Charts.{
  Sample, earliest, Bins, count_at, add_one, last_bin, fill, range, compute_rps_timeline,
}

unfoldable pub sum : List ℕ → ℕ
sum [] = 0
sum (n ∷ ns) = n + sum ns

sum-append : (xs ys : List ℕ) → sum (xs ++ ys) ≡ sum xs + sum ys
unfolding sum
sum-append [] ys = omega arith
sum-append (x ∷ xs) ys = omega (arith, sum-append xs ys)

-- The counts of the bins below `m`.
abbrev total : ℕ → Bins → ℕ
total m bins = sum (map (λ x. count_at x bins) (range m))

total-suc : (m : ℕ) (bins : Bins) → total (suc m) bins ≡ total m bins + count_at m bins
unfolding sum range
total-suc m bins =
    rw map-append
      (sum-append (map (λ x. count_at x bins) (range m)) (count_at m bins ∷ []) ∙ omega arith)

total_empty : (m : ℕ) → total m [] ≡ 0
unfolding sum range count_at
total_empty zero = refl
total_empty (suc m) = omega (arith, total-suc m [], total_empty m)

count_at-same : (x : ℕ) (bins : Bins) → count_at x (add_one x bins) ≡ count_at x bins + 1
unfolding count_at add_one
count_at-same x [] = ground arith
count_at-same x ((k, n) ∷ bins) = ground (arith, count_at-same x bins)

count_at-other :
    (x y : ℕ) (bins : Bins) → (x ≡ y → ⊥) → count_at y (add_one x bins) ≡ count_at y bins
unfolding count_at add_one
count_at-other x y [] h = ground arith
count_at-other x y ((k, n) ∷ bins) h = ground (arith, count_at-other x y bins h)

total_above : (m x : ℕ) (bins : Bins) → m ≤ x → total m (add_one x bins) ≡ total m bins
unfolding sum range
total_above zero x bins h = refl
total_above (suc m) x bins h =
    let other : x ≡ m → ⊥ = λ e. omega arith in
    omega (
      arith,
      total-suc m (add_one x bins),
      total-suc m bins,
      total_above m x bins (omega arith),
      count_at-other x m bins other,
    )

total-add_one : (m x : ℕ) (bins : Bins) → x < m → total m (add_one x bins) ≡ total m bins + 1
unfolding sum range
total-add_one zero x bins h = absurd (omega arith)
total-add_one (suc m) x bins h = elim (Bool-cases (ltb x m)) [
  | inl below ↦
      let other : x ≡ m → ⊥ = λ e. ground arith in
      omega (
        arith,
        total-suc m (add_one x bins),
        total-suc m bins,
        total-add_one m x bins (ground arith),
        count_at-other x m bins other,
      )
  | inr at ↦
      let same : x ≡ m = ground arith in
      let above = total_above m x bins (omega arith) in
      let one = count_at-same x bins in
      let at_end : total (suc m) (add_one m bins) ≡ total (suc m) bins + 1 =
        omega (
          arith,
          total-suc m (add_one m bins),
          total-suc m bins,
          rw same at above,
          rw same at one,
        ) in
      rw same at_end
]

add_one-last_bin : (x : ℕ) (bins : Bins) → x ≤ last_bin (add_one x bins)
unfolding add_one last_bin
add_one-last_bin x [] = omega arith
add_one-last_bin x ((k, n) ∷ bins) = ground (arith, add_one-last_bin x bins)

last_bin-add_one : (x : ℕ) (bins : Bins) → last_bin bins ≤ last_bin (add_one x bins)
unfolding add_one last_bin
last_bin-add_one x [] = omega arith
last_bin-add_one x ((k, n) ∷ bins) = ground (arith, last_bin-add_one x bins)

last_bin-fill :
    (start : ℕ) (rows : List Sample) (bins : Bins) → last_bin bins ≤ last_bin (fill start rows bins)
unfolding fill
last_bin-fill start [] bins = omega arith
last_bin-fill start (r ∷ rows) bins =
    let x = (r.ts - start) / second in
    omega (arith, last_bin-add_one x bins, last_bin-fill start rows (add_one x bins))

total-fill :
    (start m : ℕ) (rows : List Sample) (bins : Bins)
    → last_bin (fill start rows bins) < m
    → total m (fill start rows bins) ≡ total m bins + length rows
unfolding fill
total-fill start m [] bins h = omega arith
total-fill start m (r ∷ rows) bins h =
    let x = (r.ts - start) / second in
    let below : x < m =
      omega (arith, add_one-last_bin x bins, last_bin-fill start rows (add_one x bins)) in
    omega (arith, total-fill start m rows (add_one x bins) h, total-add_one m x bins below)

-- The counts of the throughput chart add up to the number of requests, so each request is in
-- one of the bins that the chart shows.
pub compute_rps_timeline-sum :
    (rows : List Sample) → sum (compute_rps_timeline rows).1 ≡ length rows
unfolding sum compute_rps_timeline
compute_rps_timeline-sum [] = refl
compute_rps_timeline-sum (r ∷ rows) =
    let bins = fill (earliest r rows) (r ∷ rows) [] in
    omega (
      arith,
      total-fill (earliest r rows) (last_bin bins + 1) (r ∷ rows) [] (omega arith),
      total_empty (last_bin bins + 1),
    )
