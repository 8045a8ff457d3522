-- ===== src/Scaling.antt =====
-- experiments/scripts/generate_exp2_charts.py: the summaries that it loads from S3 or from a
-- directory. Logging is left out.
pub mod Windows
pub mod Cpu
pub mod Latest
pub mod Bucket
pub mod Newest
pub mod Uploaded
pub mod Loaded
pub mod Axes
pub mod Figures
pub mod Combined
use torr_bsds.Base.{ℕ, String, ◌<>◌, Bool, Option, none, some, List, [], ◌∷◌, ◌++◌, if◌then◌else◌}
use torr_bsds.Runtime.Json.{Json, null, obj, end, Result, ok, err, get_or, truthy}
use torr_bsds.Runtime.Exec.{Exec, Trace, called, list_objects, get_object, pure, lift, ◌>>=◌}
use torr_bsds.Runtime.Text.{ends_with, rstrip_char, le_text}
use torr_bsds.Runtime.Sort.{sort}

abbrev pub relay_counts : List ℕ
relay_counts = 2 ∷ 5 ∷ 10 ∷ 20 ∷ []

-- S3, a local directory and the package `json`.
pub record Store : Type 0 where
  -- The keys in `Contents`, if the response has it.
  pub list_objects : Trace → String → String → Result (Option (List String))
  -- What the body of an object reads as.
  pub get_object : Trace → String → String → Result (List ℕ)
  -- The names of the files in a directory, none if it is not there.
  pub list_dir : String → List String
  pub read_file : String → String → Result (List ℕ)
  pub loads : List ℕ → Result Json
  -- The decimal digits.
  pub show : ℕ → String

-- The names that end so.
unfoldable pub having_suffix : String → List String → List String
having_suffix suffix [] = []
having_suffix suffix (name ∷ names) =
    let rest = having_suffix suffix names in if ends_with name suffix then name ∷ rest else rest

-- `xs[-1]`, if there is any.
unfoldable pub last : List String → Option String
last [] = none
last (x ∷ []) = some x
last (x ∷ y ∷ l) = last (y ∷ l)

-- The last of the names in order, if there is any.
abbrev pub latest : List String → Option String
latest names = last (sort le_text names)

-- `resp.get("Contents", [])`
abbrev pub contents : Option (List String) → List String
contents none = []
contents (some keys) = keys

-- `data.get("ceiling") or {}`
unfoldable pub ceiling_of : Json → Result Json
ceiling_of summary = elim (get_or summary "ceiling" null) [
  | err e ↦ err e
  | ok ceiling ↦ ok (if truthy ceiling then ceiling else obj end)
]

-- The dict from a relay count to its ceiling, in the order of the entries.
abbrev pub Summaries : Type 0
Summaries = List (ℕ × Json)

module _ (store : Store) where
  abbrev pub prefix_of : ℕ → String
  prefix_of count = "experiment-2/relays-" <> store.show count

  unfoldable pub s3_list_keys : String → String → Exec (List String)
  s3_list_keys bucket prefix = do
    resp ← λ t. (
      store.list_objects t bucket (rstrip_char "/" prefix <> "/"),
      called (list_objects bucket (rstrip_char "/" prefix <> "/")) ∷ t,
    )
    pure (contents resp)

  unfoldable pub s3_read_json : String → String → Exec Json
  s3_read_json bucket key = do
    body ← λ t. (store.get_object t bucket key, called (get_object bucket key) ∷ t)
    lift (store.loads body)

  -- The body of the loop, which adds an entry unless it goes on.
  unfoldable pub load_latest : String → ℕ → Option String → Exec Summaries
  load_latest bucket count none = pure []
  load_latest bucket count (some key) = do
    summary ← s3_read_json bucket key
    ceiling ← lift (ceiling_of summary)
    pure ((count, ceiling) ∷ [])

  unfoldable pub load_from_s3 : String → List ℕ → Exec Summaries
  load_from_s3 bucket [] = pure []
  load_from_s3 bucket (count ∷ counts) = do
    keys ← s3_list_keys bucket (prefix_of count)
    entry ← load_latest bucket count (latest (having_suffix "_summary.json" keys))
    rest ← load_from_s3 bucket counts
    pure (entry ++ rest)

  unfoldable pub load_summaries_from_s3 : String → Exec Summaries
  load_summaries_from_s3 bucket = load_from_s3 bucket relay_counts

  abbrev pub dir_of : String → ℕ → String
  dir_of local_dir count = local_dir <> "/relays-" <> store.show count

  unfoldable pub read_latest : String → ℕ → Option String → Result Summaries
  read_latest dir count none = ok []
  read_latest dir count (some name) = elim (store.read_file dir name) [
    | err e ↦ err e
    | ok body ↦ elim (store.loads body) [
      | err e ↦ err e
      | ok summary ↦ elim (ceiling_of summary) [
        | err e ↦ err e
        | ok ceiling ↦ ok ((count, ceiling) ∷ [])
      ]
    ]
  ]

  unfoldable pub load_from_dir : String → List ℕ → Result Summaries
  load_from_dir local_dir [] = ok []
  load_from_dir local_dir (count ∷ counts) =
      let dir = dir_of local_dir count in
      elim (read_latest dir count (latest (having_suffix "_summary.json" (store.list_dir dir)))) [
        | err e ↦ err e
        | ok entry ↦ elim (load_from_dir local_dir counts) [
          | err e ↦ err e
          | ok rest ↦ ok (entry ++ rest)
        ]
      ]

  unfoldable pub load_summaries_from_dir : String → Result Summaries
  load_summaries_from_dir local_dir = load_from_dir local_dir relay_counts
