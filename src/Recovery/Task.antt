-- ===== src/Recovery/Task.antt =====
-- Actions of a load-test user: beside the trace they change the user's own fields and the list of
-- CSV rows, and what was written before an exception stays written. While an action waits, polls
-- of the health checker's thread may end.
pub mod Triple
pub mod Keeps
use torr_bsds.Base.{ℕ, String, ◌/◌, Bool, Option, none, some, List, ◌++◌, [], ◌∷◌, ◌≡◌, refl}
use torr_bsds.Base.{if◌then◌else◌}
use torr_bsds.Runtime.Json.{Json, Exc, Result, ok, err}
use torr_bsds.Runtime.Exec.{Exec, Trace}
use torr_bsds.Runtime.Env.{Env, strftime}
use torr_bsds.Client.Setup.{Keys}
use torr_bsds.Recovery.Checker.{HealthChecker, apply_poll}

-- A row of `_csv_rows`.
pub record Row : Type 0 where
  pub timestamp : String
  pub status : String
  pub latency_ms : ℕ
  pub circuit_rebuilt : Bool
  pub rebuild_duration_ms : ℕ

-- The fields of a `FailureRecoveryUser`, its checker's state, and the rows that it has added to
-- the shared ones, newest last.
-- A circuit of `None` is `null`.
pub record User : Type 0 where
  pub circuit : Json
  pub keys : Keys
  pub circuit_id : String
  pub health_checker : Option HealthChecker
  pub csv_rows : List Row

abbrev pub no_keys : Keys
no_keys = record { guard_key = none; relay_key = none; exit_key = none }

abbrev pub State : Type 0
State = User × Trace

abbrev pub Task : Type 0 → Type 0
Task A = State → Result A × State

abbrev pub poll_all : List (List String) → HealthChecker → HealthChecker
poll_all [] hc = hc
poll_all (healthy ∷ polls) hc = poll_all polls (apply_poll healthy hc)

abbrev pub poll_checker : List (List String) → Option HealthChecker → Option HealthChecker
poll_checker polls none = none
poll_checker polls (some hc) = some (poll_all polls hc)

-- Polls end: the checker's flag may be set, and nothing else of the user changes.
abbrev pub interrupt : List (List String) → User → User
interrupt polls user = record user { health_checker = poll_checker polls user.health_checker }

module _ {A : Type 0} where
  abbrev pub pure : A → Task A
  pure a s = (ok a, s)

  abbrev pub raise : Exc → Task A
  raise e s = (err e, s)

  abbrev pub lift : Result A → Task A
  lift r s = (r, s)

  abbrev pub exec : Env → Exec A → Task A
  exec env m (user, t) = let (r, t') = m t in (r, (interrupt (env.polled t') user, t'))

  abbrev pub gets : (User → A) → Task A
  gets f s = (ok (f s.0), s)

abbrev pub modify : (User → User) → Task (Unit {0})
modify f (user, t) = (ok tt, (f user, t))

abbrev pub continue : {A B : Type 0} → Result A × State → (A → Task B) → Result B × State
continue (ok a, s) f = f a s
continue (err e, s) f = (err e, s)

infixl 5 ◌>>=◌ ◌>>◌
abbrev pub ◌>>=◌ : {A B : Type 0} → Task A → (A → Task B) → Task B
◌>>=◌ m f s = continue (m s) f

abbrev pub ◌>>◌ : {A B : Type 0} → Task A → Task B → Task B
m >> k = m >>= λ _. k

abbrev pub handle : {A : Type 0} → Result A × State → (Exc → Task A) → Result A × State
handle (ok a, s) h = (ok a, s)
handle (err e, s) h = h e s

-- `try: m; except Exception as exc: h exc`
abbrev pub try : {A : Type 0} → Task A → (Exc → Task A) → Task A
try m h s = handle (m s) h

-- Microseconds in whole milliseconds, as `int(ms)` cuts them off.
abbrev pub int_ms : ℕ → ℕ
int_ms duration = duration / 1000

-- `log_csv_row`, with the two durations in microseconds
unfoldable pub log_csv_row : Env → String → ℕ → Bool → ℕ → Task (Unit {0})
log_csv_row env status latency circuit_rebuilt rebuild_duration = do
  timestamp ← exec env (strftime env)
  modify (λ user. record user {
    csv_rows =
        user.csv_rows
        ++ (record {
          timestamp = timestamp;
          status = status;
          latency_ms = int_ms latency;
          circuit_rebuilt = circuit_rebuilt;
          rebuild_duration_ms = int_ms rebuild_duration;
        }
            ∷ []);
  })
