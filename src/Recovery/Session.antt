-- ===== src/Recovery/Session.antt =====
-- A user's requests one after another, as Locust makes them, and the rows that
-- experiments/experiment3/generate_charts.py reads back from the CSV.
pub mod Loss
use torr_bsds.Base.{ℕ, zero, suc, ◌+◌, String, List, map}
use torr_bsds.Runtime.Json.{Result, ok, err}
use torr_bsds.Runtime.Env.{Env}
use torr_bsds.Recovery.Task.{Row, State}
use torr_bsds.Recovery.User.{Config, send_request}
use torr_bsds.Charts.{Sample}

abbrev pub raised : Result (Unit {0}) → ℕ
raised (ok _) = 0
raised (err _) = 1

-- How many of so many requests raise, and the state after them.
unfoldable pub session : Env → Config → ℕ → State → ℕ × State
session env c zero s = (0, s)
session env c (suc n) s =
    let (r, s') = send_request env c s in let (k, s'') = session env c n s' in (raised r + k, s'')

-- `load_csv` of a row that was written: `strptime` gives its time, and the status is as it was.
abbrev pub sample_of : (String → ℕ) → Row → Sample
sample_of strptime row = record { ts = strptime row.timestamp; status = row.status }
