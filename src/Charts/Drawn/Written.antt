-- ===== src/Charts/Drawn/Written.antt =====
-- Once its data is loaded, generate_charts.py of experiment 3 gets to its end.
use torr_bsds.Base.{ℕ, String, ◌<>◌, ◌≡◌, refl, Option, none, some, List, [], ◌∷◌, ◌++◌, map, All}
use torr_bsds.Runtime.Json.{Result, ok}
use torr_bsds.Runtime.Fallible.{traverse}
use torr_bsds.Charts.{Sample}
use torr_bsds.Charts.Run.{Host, ℤ, ByMode, find_mode, Request, samples}
use torr_bsds.Charts.Published.{Uploads, chart_names}
use torr_bsds.Charts.Drawn.{
  color_of, label_of, modes_of, Figure, rps_line, kill_line, chart_rps_timeline, bars_of,
  chart_detection_time, chart_request_loss,
}
use torr_bsds.Charts.Drawn.Rebuilds.{
  points_of, plain_line, chart_latency_scatter, Rebuilds, add_bars, rebuilds_of, add_modes,
  nothing_drawn, chart_rebuild_timeline_multi,
}
use torr_bsds.Charts.Drawn.Main.{
  Pen, offset_of, detection_of, kill_offset_by_mode, detection_times, request_losses, charts,
}
use torr_bsds.Charts.Drawn.Modes.{IsKnown}

-- A call that returns.
abbrev Returns : {A : Type 0} → Result A → Type 0
Returns {A} r = (a : A) × (r ≡ ok a)

traverse-Returns :
    {A B : Type 0} (P : A → Type 0) (f : A → Result B) (xs : List A)
    → ((x : A) → P x → Returns (f x))
    → All P xs
    → Returns (traverse f xs)
unfolding traverse
traverse-Returns P f [] each ps = ([], refl)
traverse-Returns P f (x ∷ xs) each (p, ps) =
    let (y, e) = each x p in
    let (ys, es) = traverse-Returns P f xs each ps in (y ∷ ys, rw (e, es) refl)

All-append : {A : Type 0} (P : A → Type 0) (xs ys : List A) → All P xs → All P ys → All P (xs ++ ys)
All-append P [] ys ps qs = qs
All-append P (x ∷ xs) ys (p, ps) qs = (p, All-append P xs ys ps qs)

abbrev pub AllKnown : {A : Type 0} → ByMode A → Type 0
AllKnown d = All (λ e. IsKnown e.0) d

modes_of-IsKnown : {A : Type 0} (d : ByMode A) → AllKnown d → All IsKnown (modes_of d)
modes_of-IsKnown [] known = tt
modes_of-IsKnown (e ∷ d) (k, known) = (k, modes_of-IsKnown d known)

module _ (host : Host) where
  rps_line-Returns : (e : String × List (Request host)) → IsKnown e.0 → Returns (rps_line host e)
  unfolding rps_line
  rps_line-Returns (mode, rows) ((color, c), (label, l)) = rw (l, c) (_, refl)

  kill_line-Returns : (e : String × ℤ) → IsKnown e.0 → Returns (kill_line host e)
  unfolding kill_line
  kill_line-Returns (mode, offset) ((color, c), (label, l)) = rw (l, c) (_, refl)

  plain_line-Returns : (e : String × ℤ) → IsKnown e.0 → Returns (plain_line host e)
  unfolding plain_line
  plain_line-Returns (mode, offset) ((color, c), _) = rw c (_, refl)

  points_of-Returns : (e : String × List (Request host)) → IsKnown e.0 → Returns (points_of host e)
  unfolding points_of
  points_of-Returns (mode, []) known = (_, refl)
  points_of-Returns (mode, r ∷ rows) ((color, c), (label, l)) = rw (l, c) (_, refl)

  add_bars-Returns :
      (mode : String) (rebuilds : List (ℤ × host.Float)) (s : Rebuilds host)
      → IsKnown mode
      → Returns (add_bars host mode rebuilds s)
  unfolding add_bars
  add_bars-Returns mode [] s known = (s, refl)
  add_bars-Returns mode (r ∷ rebuilds) s ((color, c), (label, l)) = rw (l, c) (_, refl)

  add_modes-Returns :
      (kill_ts : String → Option ℕ) (d : ByMode (List (Request host))) (s : Rebuilds host)
      → AllKnown d
      → Returns (add_modes host kill_ts d s)
  unfolding add_modes
  add_modes-Returns kill_ts [] s known = (s, refl)
  add_modes-Returns kill_ts ((mode, rows) ∷ d) s (k, known) =
      let (s', e) = add_bars-Returns mode (rebuilds_of host (kill_ts mode) rows) s k in
      let (s'', es) = add_modes-Returns kill_ts d s' known in (s'', rw e es)

  offsets-IsKnown :
      (times : ByMode ℕ) (d : ByMode (List (Request host)))
      → AllKnown d
      → AllKnown (kill_offset_by_mode host times d)
  unfolding kill_offset_by_mode
  offsets-IsKnown times [] known = tt
  offsets-IsKnown times ((mode, rows) ∷ d) (k, known) =
      All-append (λ e. IsKnown e.0) _ (kill_offset_by_mode host times d)
        (one (find_mode mode times) (samples host rows)) (offsets-IsKnown times d known)
    where
      one :
          (o : Option ℕ) (rows : List Sample) → All (λ e. IsKnown e.0) (offset_of host mode o rows)
      one none rows = tt
      one (some kill_ts) [] = tt
      one (some kill_ts) (r ∷ rows) = (k, tt)

  detections-IsKnown :
      (times : ByMode ℕ) (d : ByMode (List (Request host)))
      → AllKnown d
      → AllKnown (detection_times host times d)
  unfolding detection_times
  detections-IsKnown times [] known = tt
  detections-IsKnown times ((mode, rows) ∷ d) (k, known) =
      All-append (λ e. IsKnown e.0) _ (detection_times host times d) (one (find_mode mode times))
        (detections-IsKnown times d known)
    where
      one : (o : Option ℕ) → All (λ e. IsKnown e.0) (detection_of host mode o (samples host rows))
      one none = tt
      one (some kill_ts) = (k, tt)

  losses-IsKnown :
      (d : ByMode (List (Request host))) → AllKnown d → AllKnown (request_losses host d)
  unfolding request_losses
  losses-IsKnown [] known = tt
  losses-IsKnown ((mode, rows) ∷ d) (k, known) = (k, losses-IsKnown d known)

  -- A chart that is made, under its name.
  abbrev IsMade : String → Result (Figure host) → Type 0
  IsMade file chart = (figure : Figure host) × (chart ≡ ok figure) × (figure.file ≡ file)

  bars_of-Returns :
      (text : ℕ → String) (values : ByMode ℕ) → AllKnown values → Returns (bars_of host text values)
  unfolding bars_of
  bars_of-Returns text values known =
      let modes = modes_of-IsKnown values known in
      let (_, e) = traverse-Returns IsKnown color_of (modes_of values) (λ m k. k.0) modes in
      let (_, f) = traverse-Returns IsKnown label_of (modes_of values) (λ m k. k.1) modes in
      rw (e, f) (_, refl)

  module _ (pen : Pen host) (uploads : Uploads) (times : ByMode ℕ)
      (d : ByMode (List (Request host))) (known : AllKnown d) where
    rps_timeline-IsMade :
        IsMade "exp3_rps_timeline.png"
          (chart_rps_timeline host d (kill_offset_by_mode host times d))
    unfolding chart_rps_timeline
    rps_timeline-IsMade =
        let (_, e) =
          traverse-Returns (λ e. IsKnown e.0) (rps_line host) d (rps_line-Returns) known in
        let (_, f) =
          traverse-Returns (λ e. IsKnown e.0) (kill_line host) (kill_offset_by_mode host times d)
            (kill_line-Returns) (offsets-IsKnown times d known) in
        rw (e, f) (_, refl, refl)

    detection_time-IsMade :
        IsMade "exp3_detection_time.png"
          (chart_detection_time host pen.one_decimal pen.show (detection_times host times d))
    unfolding chart_detection_time
    detection_time-IsMade =
        let (_, e) =
          bars_of-Returns (λ val. pen.one_decimal val <> "s") (detection_times host times d)
            (detections-IsKnown times d known) in
        rw e (_, refl, refl)

    request_loss-IsMade :
        IsMade "exp3_request_loss.png"
          (chart_request_loss host pen.one_decimal pen.show (request_losses host d))
    unfolding chart_request_loss
    request_loss-IsMade =
        let (_, e) = bars_of-Returns pen.show (request_losses host d) (losses-IsKnown d known) in
        rw e (_, refl, refl)

    latency_scatter-IsMade :
        IsMade "exp3_latency_scatter.png"
          (chart_latency_scatter host d (kill_offset_by_mode host times d))
    unfolding chart_latency_scatter
    latency_scatter-IsMade =
        let (_, e) =
          traverse-Returns (λ e. IsKnown e.0) (points_of host) d (points_of-Returns) known in
        let (_, f) =
          traverse-Returns (λ e. IsKnown e.0) (plain_line host) (kill_offset_by_mode host times d)
            (plain_line-Returns) (offsets-IsKnown times d known) in
        rw (e, f) (_, refl, refl)

    rebuild_timeline-IsMade :
        IsMade "exp3_rebuild_timeline.png" (chart_rebuild_timeline_multi host d times)
    unfolding chart_rebuild_timeline_multi
    rebuild_timeline-IsMade =
        let (_, e) =
          add_modes-Returns (λ mode. find_mode mode times) d (nothing_drawn host) known in
        rw e (_, refl, refl)

    pub charts-IsMade :
        (figures : List (Figure host)) × (traverse
            (λ chart. chart)
            (charts host pen uploads times d)
          ≡ ok figures)
        × (map (λ f. f.file) figures ≡ chart_names)
    unfolding charts traverse
    charts-IsMade =
        let (f1, e1, n1) = rps_timeline-IsMade in
        let (f2, e2, n2) = detection_time-IsMade in
        let (f3, e3, n3) = request_loss-IsMade in
        let (f4, e4, n4) = latency_scatter-IsMade in
        let (f5, e5, n5) = rebuild_timeline-IsMade in
        (f1 ∷ f2 ∷ f3 ∷ f4 ∷ f5 ∷ [], rw (e1, e2, e3, e4, e5) refl, rw (n1, n2, n3, n4, n5) refl)
