-- ===== src/Summary.antt =====
-- The summary of the latency runs: experiments/scripts/extract_locust_metrics.py appends a line
-- to it for each run, and experiments/scripts/generate_latency_charts.py draws it.
pub mod Appended
pub mod Sorted
pub mod Drawn
use torr_bsds.Base.{
  String, Bool, false, true, Option, none, some, List, [], ◌∷◌, ◌++◌, map, str_eq, if◌then◌else◌,
}
use torr_bsds.Runtime.Json.{Exc, Result, ok, err, key_error, type_error, system_exit}
use torr_bsds.Runtime.Sort.{sort}

-- A row of a `csv.DictReader`; a column that a short line lacks is `None`.
abbrev pub Row : Type 0
Row = List (String × Option String)

unfoldable pub find_column : String → Row → Option (Option String)
find_column k [] = none
find_column k ((j, v) ∷ row) = if str_eq j k then some v else find_column k row

-- `row.get(key, default)`
unfoldable pub get_column : Row → String → Option String → Option String
get_column row key default = elim (find_column key row) [ none ↦ default | some v ↦ v ]

-- A line of the summary.
pub data Line : Type 0 where
  header : Line
  cells : List (Option String) → Line

-- The files as `main` sees them: what it reads of each, and what stands in each summary.
pub record Files : Type 0 where
  pub stats : String → Result (List Row)
  pub summary : String → Option (List Line)

-- `os.path.dirname` and `os.makedirs` with `exist_ok=True`
pub record Os : Type 0 where
  pub dirname : String → String
  pub makedirs : String → Result (Unit {0})

abbrev is_aggregated : Option String → Bool
is_aggregated none = false
is_aggregated (some name) = str_eq name "Aggregated"

-- The loop up to its `break`.
unfoldable pub find_aggregated : List Row → Option Row
find_aggregated [] = none
find_aggregated (row ∷ rows) =
    if is_aggregated (get_column row "Name" none) then some row else find_aggregated rows

unfoldable pub summary_line : String → String → Row → Line
summary_line scenario concurrency aggregated = cells (
    some scenario
    ∷ some concurrency
    ∷ map (λ column. get_column aggregated column (some "0"))
        ("Request Count" ∷ "Failure Count" ∷ "Requests/s" ∷ "Average Response Time" ∷ "50%" ∷ "95%"
          ∷ "99%" ∷ []))

-- What a file holds that is opened to append, which creates it.
abbrev pub lines_of : Option (List Line) → List Line
lines_of none = []
lines_of (some lines) = lines

-- `if not output_exists: writer.writeheader()`
abbrev pub header_for : Option (List Line) → List Line
header_for none = header ∷ []
header_for (some _) = []

abbrev with_summary : Files → String → List Line → Files
with_summary files path lines = record {
  stats = files.stats;
  summary = λ p. if str_eq p path then some lines else files.summary p;
}

module _ (os : Os) where
  -- `main` from the writing on; the directory is made before the file is opened.
  unfoldable pub append_line : String → Line → Files → Result (Unit {0}) × Files
  append_line summary_csv line files = elim (os.makedirs (os.dirname summary_csv)) [
    | err e ↦ (err e, files)
    | ok _ ↦ (
      ok tt,
      with_summary files summary_csv (
          lines_of (files.summary summary_csv)
          ++ (header_for (files.summary summary_csv) ++ (line ∷ []))),
    )
  ]

  -- `main` with `sys.argv[1:]`, and the exit with what it returns.
  unfoldable pub extract : List String → Files → Result (Unit {0}) × Files
  extract (stats_csv ∷ scenario ∷ concurrency ∷ summary_csv ∷ []) files =
      elim (files.stats stats_csv) [
        | err e ↦ (err e, files)
        | ok rows ↦ elim (find_aggregated rows) [
          | none ↦ (err (system_exit 1), files)
          | some aggregated ↦
              append_line summary_csv (summary_line scenario concurrency aggregated) files
        ]
      ]
  extract _ files = (err (system_exit 1), files)

-- `row[key]`
unfoldable pub column : Row → String → Result (Option String)
column row key = elim (find_column key row) [ none ↦ err (key_error key) | some v ↦ ok v ]

abbrev is_text : String → Option String → Bool
is_text s none = false
is_text s (some t) = str_eq t s

-- `[row for row in rows if row["scenario"] == scenario]`
unfoldable pub filter_scenario : String → List Row → Result (List Row)
filter_scenario scenario [] = ok []
filter_scenario scenario (row ∷ rows) = elim (column row "scenario") [
  | err e ↦ err e
  | ok value ↦ elim (filter_scenario scenario rows) [
    | err e ↦ err e
    | ok rest ↦ ok (if is_text scenario value then row ∷ rest else rest)
  ]
]

-- `int`, and the order of the numbers.
pub record Ints : Type 1 where
  pub Int : Type 0
  pub le : Int → Int → Bool
  pub int : String → Result Int

module _ (I : Ints) where
  open I use {Int, le, int}

  abbrev pub int_of : Option String → Result Int
  int_of none = err type_error
  int_of (some s) = int s

  -- The keys of a list, all taken before it is sorted.
  unfoldable pub with_keys : List Row → Result (List (Int × Row))
  with_keys [] = ok []
  with_keys (row ∷ rows) = elim (column row "concurrency") [
    | err e ↦ err e
    | ok value ↦ elim (int_of value) [
      | err e ↦ err e
      | ok key ↦ elim (with_keys rows) [ err e ↦ err e | ok rest ↦ ok ((key, row) ∷ rest) ]
    ]
  ]

  abbrev pub le_key : Int × Row → Int × Row → Bool
  le_key a b = le a.0 b.0

  unfoldable pub rows_for : List Row → String → Result (List Row)
  rows_for rows scenario = elim (filter_scenario scenario rows) [
    | err e ↦ err e
    | ok filtered ↦ elim (with_keys filtered) [
      | err e ↦ err e
      | ok keyed ↦ ok (map (λ (x : Int × Row). x.1) (sort le_key keyed))
    ]
  ]
