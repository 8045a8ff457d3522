-- ===== src/Steady.antt =====
-- experiments/scripts/generate_exp1_charts.py: the rows that it keeps of a run's history and the
-- figures of its charts. Drawing and logging are left out.
pub mod Half
pub mod Drawn
use torr_bsds.Base.{
  ℕ, ◌-◌, ◌/◌, max, String, Bool, true, false, not, ◌&&◌, ◌||◌, Option, none, some, List, [], ◌∷◌,
  map, length, drop, ltb, ◌==◌, str_eq, if◌then◌else◌,
}

abbrev pub concurrency_levels : List ℕ
concurrency_levels = 10 ∷ 50 ∷ 100 ∷ 200 ∷ []

-- What `pandas` and floating-point numbers do.
pub record Floats : Type 1 where
  pub Float : Type 0
  pub zero : Float
  -- `pd.to_numeric(…, errors="coerce")`; what is NaN is missing
  pub to_numeric : String → Option Float
  -- of the values of a series that begins so
  pub median : Float → List Float → Float
  pub sub : Float → Float → Float
  pub max : Float → Float → Float

-- A row of the CSV; a cell that `read_csv` takes for missing is `none`.
pub record HistoryRow : Type 0 where
  pub user_count : ℕ
  pub name : Option String
  pub p50 : Option String
  pub p95 : Option String
  pub requests_per_s : Option String

module _ (F : Floats) where
  open F use {Float, to_numeric, median, sub}

  -- A row that is kept, with its numbers.
  pub record Point : Type 0 where
    pub user_count : ℕ
    pub p50 : Option Float
    pub p95 : Option Float
    pub requests_per_s : Option Float

  abbrev number : Option String → Option Float
  number none = none
  number (some s) = to_numeric s

  -- `notna() & (… != "N/A")`
  abbrev has_percentile : Option String → Bool
  has_percentile none = false
  has_percentile (some s) = not (str_eq s "N/A")

  -- `isna() | (… == "Aggregated") | (… == "")`
  abbrev is_aggregated : Option String → Bool
  is_aggregated none = true
  is_aggregated (some name) = str_eq name "Aggregated" || str_eq name ""

  abbrev pub is_kept : HistoryRow → Bool
  is_kept row = ltb 0 row.user_count && (has_percentile row.p50 && is_aggregated row.name)

  unfoldable pub keep_rows : List HistoryRow → List Point
  keep_rows [] = []
  keep_rows (row ∷ rows) =
      let rest = keep_rows rows in
      if is_kept row
      then record {
        user_count = row.user_count;
        p50 = number row.p50;
        p95 = number row.p95;
        requests_per_s = number row.requests_per_s;
      }
        ∷ rest
      else rest

  -- An empty frame if the file is not there.
  unfoldable pub load_history : Option (List HistoryRow) → List Point
  load_history none = []
  load_history (some rows) = keep_rows rows

  -- `df[df["User Count"] == level][metric].dropna()`
  unfoldable pub samples_at : (Point → Option Float) → ℕ → List Point → List Float
  samples_at metric level [] = []
  samples_at metric level (p ∷ df) =
      let rest = samples_at metric level df in
      if p.user_count == level then elim (metric p) [ none ↦ rest | some x ↦ x ∷ rest ] else rest

  -- `sub.iloc[-n:]`
  abbrev pub last_n : ℕ → List Float → List Float
  last_n n l = drop (length l - n) l

  -- The median of the steady state, of a series that is not empty.
  abbrev pub median_of : List Float → Option Float
  median_of [] = none
  median_of (x ∷ l) = some (median x l)

  unfoldable pub steady_value : List Float → Option Float
  steady_value l = median_of (last_n (max 1 (length l / 2)) l)

  -- The dict from a level to its value, in the order of the levels.
  unfoldable pub steady_state_by_level :
      (Point → Option Float) → List Point → List ℕ → List (ℕ × Float)
  steady_state_by_level metric df [] = []
  steady_state_by_level metric df (level ∷ levels) =
      let rest = steady_state_by_level metric df levels in
      elim (steady_value (samples_at metric level df)) [
        | none ↦ rest
        | some value ↦ (level, value) ∷ rest
      ]

  -- `vals.get(l, 0)`
  unfoldable pub value_at : ℕ → List (ℕ × Float) → Float
  value_at l [] = F.zero
  value_at l ((level, value) ∷ vals) =
      let rest = value_at l vals in if level == l then value else rest

  -- The bars of a comparison of two scenarios.
  unfoldable pub hop_cost : List (ℕ × Float) → List (ℕ × Float) → List Float
  hop_cost more less =
      map (λ l. F.max F.zero (sub (value_at l more) (value_at l less))) concurrency_levels
