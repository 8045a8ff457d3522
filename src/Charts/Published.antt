-- ===== src/Charts/Published.antt =====
-- experiments/experiment3/generate_charts.py: the images of its charts and their upload.
use torr_bsds.Base.{String, ◌<>◌, List, [], ◌∷◌, map, str_eq, if◌then◌else◌}
use torr_bsds.Runtime.Json.{Result}
use torr_bsds.Runtime.Exec.{Exec, Trace, called, upload_file, pure, try, ◌>>◌}

-- The images in the order in which `main` collects their paths.
abbrev pub chart_names : List String
chart_names =
    "exp3_rps_timeline.png" ∷ "exp3_detection_time.png" ∷ "exp3_request_loss.png"
    ∷ "exp3_latency_scatter.png" ∷ "exp3_rebuild_timeline.png" ∷ []

-- `boto3` and `os.path`.
pub record Uploads : Type 0 where
  pub upload_file : Trace → String → String → String → Result (Unit {0})
  pub join : String → String → String
  pub basename : String → String

module _ (uploads : Uploads) where
  -- The loop over the paths, which the first exception ends.
  unfoldable pub upload_all : String → List String → Exec (Unit {0})
  upload_all bucket [] = pure tt
  upload_all bucket (path ∷ paths) = do
    λ t. (
      uploads.upload_file t path bucket ("experiment-3/" <> uploads.basename path),
      called (upload_file path bucket ("experiment-3/" <> uploads.basename path)) ∷ t,
    )
    upload_all bucket paths

  -- Any exception is logged, and then nothing more is uploaded.
  unfoldable pub upload_to_s3 : String → List String → Exec (Unit {0})
  upload_to_s3 bucket paths =
      if str_eq bucket "" then pure tt else try (upload_all bucket paths) (λ exc. pure tt)

  -- `main` from the drawing on.
  unfoldable pub publish : String → String → Exec (Unit {0})
  publish out_dir bucket = upload_to_s3 bucket (map (uploads.join out_dir) chart_names)
