-- ===== src/Load/Settings.antt =====
-- The settings that the load tests read from the environment: a parameter holds the values that
-- `os.getenv` returns without a default, and `int` of a text is one too.
use torr_bsds.Base.{ℕ, String, Option, none, some, List, str_eq, if◌then◌else◌}
use torr_bsds.Runtime.Json.{Result}
use torr_bsds.Runtime.Fallible.{traverse}
use torr_bsds.Runtime.Text.{split, strip, rstrip_char}

module _ (environ : String → Option String) (int : String → Result ℕ) where
  -- `os.getenv(name, default)`
  unfoldable pub getenv : String → String → String
  getenv name default = elim (environ name) [ none ↦ default | some value ↦ value ]

  -- `[int(x.strip()) for x in raw.split(",")]`
  unfoldable pub concurrency_levels : Result (List ℕ)
  concurrency_levels =
      traverse (λ x. int (strip x)) (split "," (getenv "CONCURRENCY_LEVELS" "10,50,100,200"))

  unfoldable pub stage_duration : Result ℕ
  stage_duration = int (getenv "STAGE_DURATION" "60")

  unfoldable pub s3_bucket : String
  s3_bucket = getenv "EXPERIMENT_RESULTS_BUCKET" ""

  -- Without the slashes at its end, so that a key has one before the file's name.
  unfoldable pub s3_prefix : String → String
  s3_prefix default = rstrip_char "/" (getenv "S3_PREFIX" default)

  -- `DIRECTORY_URL or "http://localhost:8080"`
  unfoldable pub host : String
  host =
      if str_eq (getenv "DIRECTORY_URL" "") ""
      then "http://localhost:8080"
      else getenv "DIRECTORY_URL" ""

  unfoldable pub echo_server_url : String
  echo_server_url = getenv "ECHO_SERVER_URL" "http://localhost:8080/echo"
