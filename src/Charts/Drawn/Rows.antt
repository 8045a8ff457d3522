-- ===== src/Charts/Drawn/Rows.antt =====
-- The rows of the rebuild timeline in generate_charts.py of experiment 3.
use torr_bsds.Base.{
  ℕ, suc, ◌+◌, String, ◌≡◌, refl, sym, ap, Option, none, some, List, [], ◌∷◌, ◌++◌, map, length,
  replicate, append_assoc, append-nil, arith, Option-cases, inl, inr,
}
use torr_bsds.Runtime.Json.{ok}
use torr_bsds.Runtime.Exec.{ok_ne_err}
use torr_bsds.Charts.Run.{Host, ℤ, ByMode, find_mode, Request}
use torr_bsds.Charts.Drawn.{colors, labels, color_of, label_of, modes_of, Artist, barh}
use torr_bsds.Charts.Drawn.Rebuilds.{
  Rebuilds, add_bars, rebuilds_of, add_modes, nothing_drawn, rebuild_figure,
  chart_rebuild_timeline_multi,
}
use torr_bsds.Charts.Drawn.Modes.{IsKnown}
use torr_bsds.Charts.Drawn.Written.{AllKnown}

abbrev text_or_empty : Option String → String
text_or_empty none = ""
text_or_empty (some s) = s

-- The colour and the label of a mode, where it has them.
abbrev pub paint : String → String
paint mode = text_or_empty (find_mode mode colors)

abbrev pub name : String → String
name mode = text_or_empty (find_mode mode labels)

color_of-paint : (mode : String) → IsKnown mode → color_of mode ≡ ok (paint mode)
unfolding color_of
color_of-paint mode ((color, e), _) = elim (Option-cases (find_mode mode colors)) [
  | inl missing ↦ absurd (ok_ne_err (sym (rw missing at e)))
  | inr (c, found) ↦ rw found refl
]

label_of-name : (mode : String) → IsKnown mode → label_of mode ≡ ok (name mode)
unfolding label_of
label_of-name mode (_, (label, e)) = elim (Option-cases (find_mode mode labels)) [
  | inl missing ↦ absurd (ok_ne_err (sym (rw missing at e)))
  | inr (c, found) ↦ rw found refl
]

-- So many numbers from one on.
unfoldable pub count_from : ℕ → List String → List ℕ
count_from y [] = []
count_from y (_ ∷ modes) = y ∷ count_from (y + 1) modes

module _ (host : Host) where
  open host use {Float}

  abbrev keep : String → List (ℤ × Float) → ByMode (List (ℤ × Float)) → ByMode (List (ℤ × Float))
  keep mode [] rest = rest
  keep mode (r ∷ rebuilds) rest = (mode, r ∷ rebuilds) ∷ rest

  -- The modes with rebuilds to show.
  unfoldable pub shown :
      (String → Option ℕ) → ByMode (List (Request host)) → ByMode (List (ℤ × Float))
  shown kill_ts [] = []
  shown kill_ts ((mode, rows) ∷ d) =
      keep mode (rebuilds_of host (kill_ts mode) rows) (shown kill_ts d)

  -- The bars of a mode, all in one row, from when the rebuild was logged, as wide as it took.
  abbrev pub bars_in : ℕ → String → List (ℤ × Float) → Artist host
  bars_in y mode rebuilds =
      barh (replicate (length rebuilds) y) (map (λ (q : ℤ × Float). q.1) rebuilds)
        (map (λ (q : ℤ × Float). q.0) rebuilds) (paint mode) (name mode)

  unfoldable pub bars_from : ℕ → ByMode (List (ℤ × Float)) → List (Artist host)
  bars_from y [] = []
  bars_from y ((mode, rebuilds) ∷ d) = bars_in y mode rebuilds ∷ bars_from (y + 1) d

  -- A mode to a row, from the given one on.
  abbrev pub rows_after : Rebuilds host → ByMode (List (ℤ × Float)) → Rebuilds host
  rows_after s d = record {
    y_offset = s.y_offset + length d;
    yticks = s.yticks ++ count_from s.y_offset (modes_of d);
    ytick_labels = s.ytick_labels ++ map name (modes_of d);
    drawn = s.drawn ++ bars_from s.y_offset d;
  }

  rows_after-nil : (s : Rebuilds host) → rows_after s [] ≡ s
  unfolding count_from bars_from
  rows_after-nil s =
      let y : s.y_offset + 0 ≡ s.y_offset = omega arith in
      rw (y, append-nil s.yticks, append-nil s.ytick_labels, append-nil s.drawn) refl

  -- Of a row more, the rows after it.
  rows_after-cons :
      (s : Rebuilds host) (mode : String) (rebuilds : List (ℤ × Float))
      (d : ByMode (List (ℤ × Float)))
      → rows_after (rows_after s ((mode, rebuilds) ∷ [])) d ≡ rows_after s ((mode, rebuilds) ∷ d)
  unfolding count_from bars_from
  rows_after-cons s mode rebuilds d =
      let y : (s.y_offset + 1) + length d ≡ s.y_offset + suc (length d) = omega arith in
      rw
        (
          y,
          append_assoc s.yticks (s.y_offset ∷ []) (count_from (s.y_offset + 1) (modes_of d)),
          append_assoc s.ytick_labels (name mode ∷ []) (map name (modes_of d)),
          append_assoc s.drawn (bars_in s.y_offset mode rebuilds ∷ [])
              (bars_from (s.y_offset + 1) d),
        )
        refl

  add_bars-rows_after :
      (mode : String) (rebuilds : List (ℤ × Float)) (s : Rebuilds host)
      → IsKnown mode
      → add_bars host mode rebuilds s ≡ ok (rows_after s (keep mode rebuilds []))
  unfolding add_bars count_from bars_from
  add_bars-rows_after mode [] s known = ap ok (sym (rows_after-nil s))
  add_bars-rows_after mode (r ∷ rebuilds) s known =
      rw (color_of-paint mode known, label_of-name mode known) refl

  rows_after-keep :
      (s : Rebuilds host) (mode : String) (rebuilds : List (ℤ × Float))
      (d : ByMode (List (ℤ × Float)))
      → rows_after (rows_after s (keep mode rebuilds [])) d ≡ rows_after s (keep mode rebuilds d)
  unfolding count_from bars_from
  rows_after-keep s mode [] d = ap (λ u. rows_after u d) (rows_after-nil s)
  rows_after-keep s mode (r ∷ rebuilds) d = rows_after-cons s mode (r ∷ rebuilds) d

  add_modes-rows_after :
      (kill_ts : String → Option ℕ) (d : ByMode (List (Request host))) (s : Rebuilds host)
      → AllKnown d
      → add_modes host kill_ts d s ≡ ok (rows_after s (shown kill_ts d))
  unfolding add_modes shown
  add_modes-rows_after kill_ts [] s known = ap ok (sym (rows_after-nil s))
  add_modes-rows_after kill_ts ((mode, rows) ∷ d) s (k, known) =
      let rebuilds = rebuilds_of host (kill_ts mode) rows in
      rw
        (
          add_bars-rows_after mode rebuilds s k,
          add_modes-rows_after kill_ts d (rows_after s (keep mode rebuilds [])) known,
          rows_after-keep s mode rebuilds (shown kill_ts d),
        )
        refl

  -- If every mode has a colour and a label, the chart of the rebuilds gives each mode that has a
  -- known kill event and at least one rebuild a row of its own, numbered from 0 on in the order of
  -- the modes and labelled with the mode, with one bar for each of its rebuilds, also for those from
  -- before the kill; a mode without a kill event or without rebuilds takes no row.
  pub chart_rebuild_timeline_multi-rows :
      (d : ByMode (List (Request host))) (times : ByMode ℕ)
      → AllKnown d
      → let rows = shown (λ mode. find_mode mode times) d in
        chart_rebuild_timeline_multi host d times
        ≡ ok (
            rebuild_figure host (record {
              y_offset = length rows;
              yticks = count_from 0 (modes_of rows);
              ytick_labels = map name (modes_of rows);
              drawn = bars_from 0 rows;
            }))
  unfolding chart_rebuild_timeline_multi
  chart_rebuild_timeline_multi-rows d times known =
      rw (add_modes-rows_after (λ mode. find_mode mode times) d (nothing_drawn host) known) refl
