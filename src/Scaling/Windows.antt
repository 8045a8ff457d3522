-- ===== src/Scaling/Windows.antt =====
-- experiments/scripts/generate_exp2_cpu_chart.py: `load_timestamps`. Times are in microseconds
-- since the epoch.

use torr_bsds.Base.{
  ℕ, zero, suc, Bool, String, ◌≡◌, sym, List, [], ◌∷◌, str_eq, leb, if◌then◌else◌, inl, inr, arith,
}
use torr_bsds.Runtime.Json.{Result, ok, err, index_error}
use torr_bsds.Runtime.Exec.{Result-cases, ok-inj, ok_ne_err}
use torr_bsds.Runtime.Fallible.{◌>>=◌}
use torr_bsds.Runtime.Text.{split, strip, rstrip_char}
use torr_bsds.Runtime.Sort.{sort, IsSorted, sort-IsSorted}

pub record Window : Type 0 where
  pub relay_count : ℕ
  pub start : ℕ
  pub end : ℕ

abbrev pub le_window : Window → Window → Bool
le_window a b = leb a.relay_count b.relay_count

-- `parts[n]`
unfoldable pub part : ℕ → List String → Result String
part n [] = err index_error
part zero (x ∷ l) = ok x
part (suc n) (x ∷ l) = part n l

-- `int` and `datetime.fromisoformat`
module _ (int fromisoformat : String → Result ℕ) where
  unfoldable pub parse_utc : String → Result ℕ
  parse_utc ts = fromisoformat (rstrip_char "Z" ts)

  unfoldable pub parse_window : List String → Result Window
  parse_window parts = do
    relay_count ← part 0 parts >>= int
    start ← part 1 parts >>= parse_utc
    end ← part 2 parts >>= parse_utc
    ok (record { relay_count = relay_count; start = start; end = end })

  -- The loop over the lines, which skips blank ones.
  unfoldable pub parse_windows : List String → Result (List Window)
  parse_windows [] = ok []
  parse_windows (line ∷ lines) =
      let rest = parse_windows lines in
      if str_eq (strip line) "" then rest else (do
        window ← parse_window (split "," (strip line))
        windows ← rest
        ok (window ∷ windows))

  -- `load_timestamps` of the lines of the file
  unfoldable pub load_timestamps : List String → Result (List Window)
  load_timestamps lines = do windows ← parse_windows lines; ok (sort le_window windows)

  -- The windows come in the order of their relay counts.
  pub load_timestamps-IsSorted :
      (lines : List String) (windows : List Window)
      → load_timestamps lines ≡ ok windows
      → IsSorted le_window windows
  unfolding load_timestamps
  load_timestamps-IsSorted lines windows e = elim (Result-cases (parse_windows lines)) [
    | inr (x, failed) ↦ absurd (ok_ne_err (sym (rw (load_timestamps, failed) at e)))
    | inl (read, parsed) ↦
        rw (ok-inj (rw (load_timestamps, parsed) at e)) at
          (sort-IsSorted le_window (λ x y h. ground arith) read)
  ]
