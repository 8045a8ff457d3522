-- ===== src/Charts/Run.antt =====
-- experiments/experiment3/generate_charts.py: the files that it finds and reads, and the figures
-- of its charts. Drawing and logging are left out.
pub mod Found
pub mod KillTime
use torr_bsds.Base.{
  ℕ, ◌-◌, min, String, ◌<>◌, Bool, true, false, not, ◌&&◌, ◌||◌, Option, none, some, List, [], ◌∷◌,
  ◌++◌, map, str_eq, ltb, if◌then◌else◌,
}
use torr_bsds.Runtime.Json.{
  Json, Result, ok, err, index, as_str, type_error, attribute_error, system_exit,
}
use torr_bsds.Runtime.Fallible.{traverse, ◌>>=◌, ◌>>◌}
use torr_bsds.Runtime.Text.{ends_with, has_text, le_text}
use torr_bsds.Runtime.Sort.{sort}
use torr_bsds.Charts.{Sample, earliest, compute_request_loss, compute_detection_time}
use torr_bsds.Summary.{Row, column}

-- Python's `/`, `float`, `str.lower`, `datetime` and the file system.
pub record Host : Type 1 where
  pub Float : Type 0
  pub float : String → Result Float
  pub lower : String → String
  -- the time that "%Y-%m-%dT%H:%M:%S" reads, in UTC
  pub strptime : String → Result ℕ
  pub fromisoformat : String → Result ℕ
  pub makedirs : String → Result (Unit {0})
  pub listdir : String → Result (List String)
  pub join : String → String → String
  -- `csv.DictReader` and `json.load` on a file
  pub read_rows : String → Result (List Row)
  pub read_json : String → Result Json

pub record Args : Type 0 where
  pub data_dir : String
  pub kill_event : String
  pub kill_event_no_predetection : String
  pub kill_event_with_predetection : String
  pub out_dir : String

-- A difference of times.
pub data ℤ : Type 0 where
  pos negsuc : ℕ → ℤ

abbrev pub difference : ℕ → ℕ → ℤ
difference a b = if ltb a b then negsuc (b - a - 1) else pos (a - b)

-- A dict from a mode, in the order of the entries.
abbrev pub ByMode : Type 0 → Type 0
ByMode A = List (String × A)

-- `d.get(mode)`
unfoldable pub find_mode : {A : Type 0} → String → ByMode A → Option A
find_mode mode [] = none
find_mode mode ((m, a) ∷ d) = let rest = find_mode mode d in if str_eq m mode then some a else rest

-- `d[mode] = a`
unfoldable pub set_mode : {A : Type 0} → String → A → ByMode A → ByMode A
set_mode mode a [] = (mode, a) ∷ []
set_mode mode a ((m, b) ∷ d) =
    let rest = set_mode mode a d in if str_eq m mode then (m, a) ∷ d else (m, b) ∷ rest

abbrev is_none : {A : Type 0} → Option A → Bool
is_none none = true
is_none (some _) = false

abbrev pub aggregates : List String
aggregates = "_stats.csv" ∷ "_stats_history.csv" ∷ "_failures.csv" ∷ "_exceptions.csv" ∷ []

-- `any(x in fname for x in …)`
unfoldable pub has_any : List String → String → Bool
has_any [] fname = false
has_any (x ∷ xs) fname = has_text x fname || has_any xs fname

-- What neither `continue` skips.
unfoldable pub is_data : String → Bool
is_data fname = ends_with fname ".csv" && not (has_any aggregates fname)

-- The tests of the `if` and of the `elif`.
abbrev pub is_new : String → String → ByMode String → Bool
is_new mode fname files = has_text mode fname && is_none (find_mode mode files)

module _ (host : Host) where
  open host use {Float}

  unfoldable pub add_file : String → String → ByMode String → ByMode String
  add_file data_dir fname files =
      if is_data fname
      then (if is_new "no-predetection" fname files
          then set_mode "no-predetection" (host.join data_dir fname) files
          else (if is_new "with-predetection" fname files
              then set_mode "with-predetection" (host.join data_dir fname) files
              else files))
      else files

  unfoldable pub add_files : String → List String → ByMode String → ByMode String
  add_files data_dir [] files = files
  add_files data_dir (fname ∷ names) files =
      add_files data_dir names (add_file data_dir fname files)

  unfoldable pub find_data_files : String → Result (ByMode String)
  find_data_files data_dir = do
    names ← host.listdir data_dir
    ok (add_files data_dir (sort le_text names) [])

  -- A row of a per-request CSV.
  pub record Request : Type 0 where
    pub sample : Sample
    pub latency_ms : Float
    pub rebuild_duration_ms : Float
    pub circuit_rebuilt : Bool

  -- A value that is a text.
  abbrev text : Option String → Result String
  text none = err type_error
  text (some s) = ok s

  abbrev lowered : Option String → Result String
  lowered none = err attribute_error
  lowered (some s) = ok (host.lower s)

  -- A status that a short line lacks is no success either.
  abbrev status_text : Option String → String
  status_text none = ""
  status_text (some s) = s

  -- The status is read with the rest of the row, which `main` reads in any case.
  unfoldable pub load_row : Row → Result Request
  load_row row = do
    latency ← column row "latency_ms" >>= text >>= host.float
    duration ← column row "rebuild_duration_ms" >>= text >>= host.float
    rebuilt ← column row "circuit_rebuilt" >>= lowered
    ts ← column row "timestamp" >>= text >>= host.strptime
    status ← column row "status"
    ok (record {
      sample = record { ts = ts; status = status_text status };
      latency_ms = latency;
      rebuild_duration_ms = duration;
      circuit_rebuilt = str_eq rebuilt "true" || (str_eq rebuilt "1" || str_eq rebuilt "yes");
    })

  unfoldable pub load_csv : String → Result (List Request)
  load_csv path = host.read_rows path >>= traverse load_row

  unfoldable pub load_kill_event : String → Result ℕ
  load_kill_event path = do
    event ← host.read_json path
    timestamp ← index event "killTimestamp"
    timestamp' ← as_str timestamp type_error
    host.fromisoformat timestamp'

  -- A kill event of one mode, if its path is given.
  unfoldable pub set_kill_time : String → String → ByMode ℕ → Result (ByMode ℕ)
  set_kill_time mode path times =
      let read = load_kill_event path in
      if str_eq path "" then ok times else (do kill_ts ← read; ok (set_mode mode kill_ts times))

  -- The one kill event for both modes, if its path is given.
  unfoldable pub set_kill_times : String → Result (ByMode ℕ)
  set_kill_times path =
      let read = load_kill_event path in
      if str_eq path "" then ok [] else (do
        kill_ts ← read
        ok (set_mode "with-predetection" kill_ts (set_mode "no-predetection" kill_ts [])))

  unfoldable pub kill_times : Args → Result (ByMode ℕ)
  kill_times args = do
    times ← set_kill_times args.kill_event
    times' ← set_kill_time "no-predetection" args.kill_event_no_predetection times
    set_kill_time "with-predetection" args.kill_event_with_predetection times'

  unfoldable pub load_all : ByMode String → Result (ByMode (List Request))
  load_all [] = ok []
  load_all ((mode, path) ∷ files) = do
    rows ← load_csv path
    data_by_mode ← load_all files
    ok ((mode, rows) ∷ data_by_mode)

  abbrev pub samples : List Request → List Sample
  samples rows = map (λ (r : Request). r.sample) rows

  unfoldable pub compute_rebuild_offsets : List Request → ℕ → List (ℤ × Float)
  compute_rebuild_offsets [] kill_ts = []
  compute_rebuild_offsets (r ∷ rows) kill_ts =
      let rest = compute_rebuild_offsets rows kill_ts in
      if r.circuit_rebuilt
      then (difference r.sample.ts kill_ts, r.rebuild_duration_ms) ∷ rest
      else rest

  -- `if not files: sys.exit(1)`
  abbrev pub exit_if_empty : {A : Type 0} → ByMode A → Result (Unit {0})
  exit_if_empty [] = err (system_exit 1)
  exit_if_empty (_ ∷ _) = ok tt

  -- `main` up to the figures.
  unfoldable pub load_run : Args → Result (ByMode ℕ × ByMode (List Request))
  load_run args = do
    host.makedirs args.out_dir
    times ← kill_times args
    exit_if_empty times
    files ← find_data_files args.data_dir
    exit_if_empty files
    data_by_mode ← load_all files
    ok (times, data_by_mode)
