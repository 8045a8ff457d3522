-- ===== src/Load/Baseline.antt =====
-- `EchoBaselineUser` of experiments/locust/echo_baseline.py. Locust's own client reports the
-- request, and raises nothing.
use torr_bsds.Base.{String, str_eq, if◌then◌else◌}
use torr_bsds.Runtime.Exec.{Exec, called, client_request, emit}

-- The request method is given in capitals.
pub record Target : Type 0 where
  pub target_path : String
  pub request_method : String
  pub payload : String

unfoldable pub hit_target : Target → Exec (Unit {0})
hit_target c =
    if str_eq c.request_method "POST"
    then emit (called (client_request "POST" c.target_path c.payload c.target_path))
    else emit (called (client_request "GET" c.target_path "" c.target_path))
