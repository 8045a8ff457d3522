-- ===== src/Metrics/Exported.antt =====
-- What the export stores, given what CloudWatch answers.
use torr_bsds.Base.{
  ℕ, String, ◌≡◌, refl, ap, ◌∙◌, sym, true, false, ◌⊎◌, inl, inr, List, [], ◌∷◌, ◌++◌, append_assoc,
  append-nil, leb, str_eq,
}
use torr_bsds.Runtime.Json.{Exc, ok, err}
use torr_bsds.Runtime.Exec.{Exec, Trace, called, get_metric, put_object, ◌>>=◌, Result-cases}
use torr_bsds.Runtime.Text.{split}
use torr_bsds.Load.Ramp.{Floats}
use torr_bsds.Metrics.{
  Point, MetricResult, Cloud, Args, metrics, named, parse_utc, zip_points, fetch_metric,
  fetch_metrics, fetch_service_metrics, upload_to_s3, try_upload, upload_points, key_of,
  export_services, export_window, main,
}

-- The objects that were put, oldest first: their keys and bodies.
unfoldable pub puts : Trace → List (String × List ℕ)
puts [] = []
puts (called (put_object bucket key body) ∷ t) = puts t ++ ((key, body) ∷ [])
puts (_ ∷ t) = puts t

module _ (F : Floats) (cloud : Cloud F) (args : Args F) where
  -- The points of one service and metric, in any run of the export.
  abbrev pub Answer : Type 0
  Answer = String → String → String → List (Point F)

  -- Asked for a metric of the window, CloudWatch gives a first result with these points, or it
  -- refuses and there are none; and storing succeeds or raises an error of AWS.
  pub record Serves (answer : Answer) (start end : ℕ) : Type 0 where
    pub metric :
        (t : Trace) (service metric unit : String)
        → ((result : MetricResult F) × (rest : List (MetricResult F)) × (cloud.get_metric_data t
                args.cluster service metric start end
              ≡ ok (result ∷ rest))
            × (zip_points F cloud service metric unit result.timestamps result.values
                ≡ answer service metric unit))
          ⊎ ((e : Exc) × (cloud.get_metric_data t args.cluster service metric start end ≡ err e)
              × (cloud.is_aws_error e ≡ true)
              × (answer service metric unit ≡ []))
    pub storing :
        (t : Trace) (bucket key : String) (body : List ℕ) (e : Exc)
        → cloud.put_object t bucket key body ≡ err e
        → cloud.is_aws_error e ≡ true

  -- The points of a service, metric by metric.
  unfoldable pub points_of : Answer → String → List (String × String) → List (Point F)
  points_of answer service [] = []
  points_of answer service ((metric, unit) ∷ rest) =
      answer service metric unit ++ points_of answer service rest

  unfoldable pub all_points : Answer → List String → List (Point F)
  all_points answer [] = []
  all_points answer (service ∷ services) =
      points_of answer service (metrics F) ++ all_points answer services

  -- One file, if there are points.
  unfoldable pub file : String → List (Point F) → List (String × List ℕ)
  file key [] = []
  file key (row ∷ rows) = (key, cloud.points_csv (row ∷ rows)) ∷ []

  -- A file for each service.
  unfoldable pub files : Answer → ℕ → ℕ → List String → List (String × List ℕ)
  files answer start end [] = []
  files answer start end (service ∷ services) =
      file (key_of F cloud args service start end) (points_of answer service (metrics F))
      ++ files answer start end services

  module _ (answer : Answer) (start end : ℕ) (serves : Serves answer start end) where
    -- An action that returns a value, and puts these objects.
    abbrev Puts : {A : Type 0} → Exec A → A → List (String × List ℕ) → Type 0
    Puts m a objects = (t : Trace) → (u : Trace) × (m t ≡ (ok a, u)) × (puts u ≡ puts t ++ objects)

    fetch_metrics-Puts :
        (service : String) (l : List (String × String)) (all_rows : List (Point F))
        → Puts
            (fetch_metrics F cloud args.cluster service start end l all_rows)
            (all_rows ++ points_of answer service l)
            []
    unfolding fetch_metrics fetch_metric points_of puts
    fetch_metrics-Puts service [] all_rows t =
        (t, ap (λ l. (ok l, t)) (sym (append-nil all_rows)), sym (append-nil (puts t)))
    fetch_metrics-Puts service ((metric, unit) ∷ rest) all_rows t =
        let asked : Trace = called (get_metric args.cluster service metric start end) ∷ t in
        let (u, e, h) =
          fetch_metrics-Puts service rest (all_rows ++ answer service metric unit) asked in
        let joined =
          append_assoc all_rows (answer service metric unit) (points_of answer service rest) in
        let e' = e ∙ ap (λ l. (ok l, u)) joined in
        elim (serves.metric t service metric unit) [
          | inl (result, more, got, points) ↦ (u, rw (got, points) e', h)
          | inr (exc, refused, aws, none) ↦ (u, rw (refused, aws) (rw (sym none) e'), h)
        ]

    try_upload-Puts :
        (key : String) (body : List ℕ)
        → Puts (try_upload F cloud args.bucket key body) tt ((key, body) ∷ [])
    unfolding upload_to_s3 puts
    try_upload-Puts key body t = elim (Result-cases (cloud.put_object t args.bucket key body)) [
      | inl (_, stored) ↦ (called (put_object args.bucket key body) ∷ t, rw stored refl, refl)
      | inr (e, failed) ↦ (
        called (put_object args.bucket key body) ∷ t,
        rw (failed, serves.storing t args.bucket key body e failed) refl,
        refl,
      )
    ]

    upload_points-Puts :
        (key : String) (rows : List (Point F))
        → Puts (upload_points F cloud args.bucket key rows) tt (file key rows)
    unfolding upload_points file
    upload_points-Puts key [] t = (t, refl, sym (append-nil (puts t)))
    upload_points-Puts key (row ∷ rows) t = try_upload-Puts key (cloud.points_csv (row ∷ rows)) t

    bind-Puts :
        {A B : Type 0} (m : Exec A) (f : A → Exec B) {a : A} {b : B}
        (xs ys : List (String × List ℕ))
        → Puts m a xs
        → Puts (f a) b ys
        → Puts (m >>= f) b (xs ++ ys)
    bind-Puts m f {a} {b} xs ys p q t =
        let (u, e, h) = p t in
        let (v, e', h') = q u in
        (v, rw e e', h' ∙ ap (λ l. l ++ ys) h ∙ append_assoc (puts t) xs ys)

    export_services-Puts :
        (services : List String) (all_rows : List (Point F))
        → Puts
            (export_services F cloud args start end services all_rows)
            (all_rows ++ all_points answer services)
            (files answer start end services)
    unfolding export_services fetch_service_metrics all_points files
    export_services-Puts [] all_rows =
        λ t. (t, ap (λ l. (ok l, t)) (sym (append-nil all_rows)), sym (append-nil (puts t)))
    export_services-Puts (service ∷ services) all_rows =
        let rows : List (Point F) = points_of answer service (metrics F) in
        let rest : Puts (export_services F cloud args start end services (all_rows ++ rows))
            (all_rows ++ (rows ++ all_points answer services)) (files answer start end services) =
          rw append_assoc at (export_services-Puts services (all_rows ++ rows)) in
        bind-Puts _ _ _ _ (fetch_metrics-Puts service (metrics F) [])
          (bind-Puts _ _ _ _ (upload_points-Puts (key_of F cloud args service start end) rows) rest)

  -- If CloudWatch answers for the window, or refuses a metric, always in the same way, and storing
  -- raises nothing but errors of AWS: with a bucket and a window that is not empty, the export
  -- returns, and has put one file for each named service that has points, in order, with the
  -- points of all its metrics, and then one file with the points of all services, if there are
  -- any. A metric or a file that AWS refuses does not keep the others from being exported.
  pub main-exports :
      (answer : Answer) (start end : ℕ) (t : Trace)
      → Serves answer start end
      → str_eq args.bucket "" ≡ false
      → parse_utc F cloud args.start ≡ ok start
      → parse_utc F cloud args.end ≡ ok end
      → leb end start ≡ false
      → let services = named F (split "," args.services) in
        ((main F cloud args t).0 ≡ ok tt)
        × (puts (main F cloud args t).1
            ≡ puts t
              ++ (files answer start end services
                  ++ file
                      (key_of F cloud args "all_services" start end)
                      (all_points answer services)))
  unfolding main export_window
  main-exports answer start end t serves bucket from until later =
      let services = named F (split "," args.services) in
      let (u, e, h) =
        bind-Puts answer start end serves (export_services F cloud args start end services [])
          (λ all_rows.
            upload_points F cloud args.bucket (key_of F cloud args "all_services" start end)
              all_rows)
          _ _ (export_services-Puts answer start end serves services [])
          (upload_points-Puts answer start end serves (key_of F cloud args "all_services" start end)
            (all_points answer services))
          t in
      rw (bucket, from, until, later, e) (refl, h)
