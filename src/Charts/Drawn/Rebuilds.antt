-- ===== src/Charts/Drawn/Rebuilds.antt =====
-- experiments/experiment3/generate_charts.py: the latencies, and the rebuilds relative to the
-- kill, whose loop keeps the next free row.
use torr_bsds.Base.{
  ℕ, ◌+◌, ◌-◌, String, Option, none, some, List, [], ◌∷◌, ◌++◌, map, length, replicate,
}
use torr_bsds.Runtime.Json.{Result, ok}
use torr_bsds.Runtime.Fallible.{traverse, ◌>>=◌}
use torr_bsds.Charts.{Sample, earliest}
use torr_bsds.Charts.Run.{
  Host, ℤ, pos, ByMode, find_mode, Request, samples, compute_rebuild_offsets,
}
use torr_bsds.Charts.Drawn.{color_of, label_of, Artist, scatter, barh, axvline, Figure}

module _ (host : Host) where
  open host use {Float}

  -- The seconds since the first request, in microseconds.
  abbrev pub seconds_from_start : List Sample → List ℕ
  seconds_from_start [] = []
  seconds_from_start (r ∷ rows) = map (λ (s : Sample). s.ts - earliest r rows) (r ∷ rows)

  unfoldable pub points_of : String × List (Request host) → Result (List (Artist host))
  points_of (mode, []) = ok []
  points_of (mode, r ∷ rows) = do
    label ← label_of mode
    color ← color_of mode
    ok (
        scatter (seconds_from_start (samples host (r ∷ rows)))
          (map (λ (q : Request host). q.latency_ms) (r ∷ rows)) label color
        ∷ [])

  unfoldable pub plain_line : String × ℤ → Result (Artist host)
  plain_line (mode, offset) = do color ← color_of mode; ok (axvline offset color none)

  unfoldable pub concat : {A : Type 0} → List (List A) → List A
  concat [] = []
  concat (xs ∷ rest) = xs ++ concat rest

  unfoldable pub chart_latency_scatter :
      ByMode (List (Request host)) → ByMode ℤ → Result (Figure host)
  chart_latency_scatter data_by_mode kill_offset_by_mode = do
    points ← traverse points_of data_by_mode
    kills ← traverse plain_line kill_offset_by_mode
    ok (record {
      file = "exp3_latency_scatter.png";
      title = "Experiment 3: Per-Request Latency During Node Failure";
      x_label = some "Time (seconds)";
      y_label = "Latency (ms)";
      y_ticks = none;
      artists = concat points ++ kills;
    })

  -- The variables of the loop, and what it has drawn.
  pub record Rebuilds : Type 0 where
    pub y_offset : ℕ
    pub yticks : List ℕ
    pub ytick_labels : List String
    pub drawn : List (Artist host)

  -- `if not rebuilds: continue`, and the rest of the body.
  unfoldable pub add_bars : String → List (ℤ × Float) → Rebuilds → Result Rebuilds
  add_bars mode [] s = ok s
  add_bars mode (r ∷ rebuilds) s = do
    color ← color_of mode
    label ← label_of mode
    ok (record {
      y_offset = s.y_offset + 1;
      yticks = s.yticks ++ (s.y_offset ∷ []);
      ytick_labels = s.ytick_labels ++ (label ∷ []);
      drawn =
          s.drawn
          ++ (barh (replicate (length (r ∷ rebuilds)) s.y_offset)
                (map (λ (q : ℤ × Float). q.1) (r ∷ rebuilds))
                (map (λ (q : ℤ × Float). q.0) (r ∷ rebuilds)) color label
              ∷ []);
    })

  -- The rebuilds of a mode, of which one without a kill event has none to show.
  abbrev pub rebuilds_of : Option ℕ → List (Request host) → List (ℤ × Float)
  rebuilds_of (some kill_ts) rows = compute_rebuild_offsets host rows kill_ts
  rebuilds_of none rows = []

  unfoldable pub add_modes :
      (String → Option ℕ) → ByMode (List (Request host)) → Rebuilds → Result Rebuilds
  add_modes kill_ts [] s = ok s
  add_modes kill_ts ((mode, rows) ∷ data_by_mode) s = do
    s' ← add_bars mode (rebuilds_of (kill_ts mode) rows) s
    add_modes kill_ts data_by_mode s'

  abbrev pub nothing_drawn : Rebuilds
  nothing_drawn = record { y_offset = 0; yticks = []; ytick_labels = []; drawn = [] }

  abbrev pub rebuild_figure : Rebuilds → Figure host
  rebuild_figure s = record {
    file = "exp3_rebuild_timeline.png";
    title = "Experiment 3: Circuit Rebuild Timing Relative to Kill Event";
    x_label = some "Time Relative to Kill Event (seconds)";
    y_label = "";
    y_ticks = some (s.yticks, s.ytick_labels);
    artists = s.drawn ++ (axvline (pos 0) "black" (some "Kill event") ∷ []);
  }

  unfoldable pub chart_rebuild_timeline_multi :
      ByMode (List (Request host)) → ByMode ℕ → Result (Figure host)
  chart_rebuild_timeline_multi data_by_mode kill_ts_by_mode = do
    s ← add_modes (λ mode. find_mode mode kill_ts_by_mode) data_by_mode nothing_drawn
    ok (rebuild_figure s)

  -- One kill event for all modes; `main` does not call it.
  unfoldable pub chart_rebuild_timeline : ByMode (List (Request host)) → ℕ → Result (Figure host)
  chart_rebuild_timeline data_by_mode kill_ts = do
    s ← add_modes (λ mode. some kill_ts) data_by_mode nothing_drawn
    ok (rebuild_figure s)
