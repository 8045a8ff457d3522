-- ===== src/Charts.antt =====
-- What experiments/experiment3/generate_charts.py computes before it draws. A timestamp is in
-- microseconds, and so is the detection time; `bin_seconds` is its default, 1.
pub mod Timeline
pub mod Failures
pub mod Run
pub mod Published
pub mod Drawn
use torr_bsds.Base.{
  ℕ, zero, suc, ◌+◌, ◌-◌, ◌/◌, min, max, String, Bool, not, List, [], ◌∷◌, ◌++◌, map, length, ◌==◌,
  str_eq, if◌then◌else◌,
}
use torr_bsds.Load.Shape.{second}

-- The two columns of a request that are read here.
pub record Sample : Type 0 where
  pub ts : ℕ
  pub status : String

abbrev pub is_failure : Sample → Bool
is_failure r = not (str_eq r.status "success")

-- `[r for r in rows if r["status"] != "success"]`
unfoldable pub failures : List Sample → List Sample
failures [] = []
failures (r ∷ rows) = let rest = failures rows in if is_failure r then r ∷ rest else rest

-- The least timestamp of a list that begins with `r`.
unfoldable pub earliest : Sample → List Sample → ℕ
earliest r [] = r.ts
earliest r (r' ∷ rows) = min r.ts (earliest r' rows)

unfoldable pub compute_request_loss : List Sample → ℕ
compute_request_loss rows = length (failures rows)

-- `max(dt, 0)`, with 0 for no failure
abbrev pub detection_of : List Sample → ℕ → ℕ
detection_of [] kill_ts = 0
detection_of (r ∷ rows) kill_ts = earliest r rows - kill_ts

unfoldable pub compute_detection_time : List Sample → ℕ → ℕ
compute_detection_time rows kill_ts = detection_of (failures rows) kill_ts

-- The dict from a bin to its count, in the order of the first entries.
abbrev pub Bins : Type 0
Bins = List (ℕ × ℕ)

-- `bins.get(x, 0)`
unfoldable pub count_at : ℕ → Bins → ℕ
count_at x [] = 0
count_at x ((k, n) ∷ bins) = let rest = count_at x bins in if k == x then n else rest

-- `bins[x] = bins.get(x, 0) + 1`
unfoldable pub add_one : ℕ → Bins → Bins
add_one x [] = (x, 1) ∷ []
add_one x ((k, n) ∷ bins) =
    let rest = add_one x bins in if k == x then (k, n + 1) ∷ bins else (k, n) ∷ rest

-- `max(bins.keys())`
unfoldable pub last_bin : Bins → ℕ
last_bin [] = 0
last_bin ((k, n) ∷ bins) = max k (last_bin bins)

unfoldable pub fill : ℕ → List Sample → Bins → Bins
fill start [] bins = bins
fill start (r ∷ rows) bins = fill start rows (add_one ((r.ts - start) / second) bins)

-- `list(range(n))`
unfoldable pub range : ℕ → List ℕ
range zero = []
range (suc n) = range n ++ (n ∷ [])

abbrev pub timeline_of : Bins → List ℕ × List ℕ
timeline_of bins = let xs = range (last_bin bins + 1) in (xs, map (λ x. count_at x bins) xs)

unfoldable pub compute_rps_timeline : List Sample → List ℕ × List ℕ
compute_rps_timeline [] = ([], [])
compute_rps_timeline (r ∷ rows) = timeline_of (fill (earliest r rows) (r ∷ rows) [])
