-- ===== src/Summary/Appended.antt =====
-- What stands in the summary after any number of runs.
use torr_bsds.Base.{
  sym, append-nil, String, ◌≡◌, refl, ap, ◌∙◌, Option, none, some, Option-cases, List, [], ◌∷◌,
  ◌++◌, append_assoc, inl, inr, eq_iff,
}
use torr_bsds.Runtime.Json.{Result, ok, err}
use torr_bsds.Runtime.Exec.{Result-cases}
use torr_bsds.Summary.{
  Row, Line, header, Files, Os, find_aggregated, summary_line, append_line, extract, with_summary,
  lines_of, header_for,
}

-- The statistics, the scenario and the concurrency of a run.
abbrev pub Run : Type 0
Run = String × String × String

-- One process after another, which write to the same summary.
unfoldable pub run_all : Os → String → List Run → Files → Files
run_all os summary_csv [] files = files
run_all os summary_csv ((stats_csv, scenario, concurrency) ∷ runs) files =
    run_all os summary_csv runs
      (extract os (stats_csv ∷ scenario ∷ concurrency ∷ summary_csv ∷ []) files).1

-- The line of each run whose statistics can be read and have an aggregate.
unfoldable pub recorded : (String → Result (List Row)) → List Run → List Line
recorded stats [] = []
recorded stats ((stats_csv, scenario, concurrency) ∷ runs) =
    let rest = recorded stats runs in
    elim (stats stats_csv) [
      | err _ ↦ rest
      | ok rows ↦ elim (find_aggregated rows) [
        | none ↦ rest
        | some aggregated ↦ summary_line scenario concurrency aggregated ∷ rest
      ]
    ]

-- No file as long as there is no line, and one header.
unfoldable pub content : List Line → Option (List Line)
content [] = none
content (line ∷ lines) = some (header ∷ line ∷ lines)

module _ (os : Os) (summary_csv : String)
    (made : os.makedirs (os.dirname summary_csv) ≡ ok tt) where
  -- The files with one more line.
  abbrev with_line : Line → Files → Files
  with_line line files = with_summary files summary_csv (
      lines_of (files.summary summary_csv)
      ++ (header_for (files.summary summary_csv) ++ (line ∷ [])))

  append_line-with_line :
      (line : Line) (files : Files)
      → append_line os summary_csv line files ≡ (ok tt, with_line line files)
  unfolding append_line
  append_line-with_line line files = rw (append_line, made) refl

  with_line-content :
      (line : Line) (before : List Line) (files : Files)
      → files.summary summary_csv ≡ content before
      → (with_line line files).summary summary_csv ≡ content (before ++ (line ∷ []))
  unfolding content
  with_line-content line [] files e = rw (e, (eq_iff summary_csv summary_csv).1 refl) refl
  with_line-content line (l ∷ ls) files e = rw (e, (eq_iff summary_csv summary_csv).1 refl) refl

  run_all-content :
      (runs : List Run) (before : List Line) (files : Files)
      → files.summary summary_csv ≡ content before
      → (run_all os summary_csv runs files).summary summary_csv
        ≡ content (before ++ recorded files.stats runs)
  unfolding run_all recorded extract
  run_all-content [] before files e = e ∙ ap content (sym (append-nil before))
  run_all-content ((stats_csv, scenario, concurrency) ∷ runs) before files e =
      let skipped = run_all-content runs before files e in
      elim (Result-cases (files.stats stats_csv)) [
        | inr (_, unread) ↦ rw (run_all, extract, recorded, unread) skipped
        | inl (rows, read) ↦
            rw (run_all, extract, recorded, read)
              (elim (Option-cases (find_aggregated rows)) [
                | inl missing ↦ rw missing skipped
                | inr (aggregated, found) ↦
                    let line = summary_line scenario concurrency aggregated in
                    let rest =
                      run_all-content runs (before ++ (line ∷ [])) (with_line line files)
                        (with_line-content line before files e) in
                    rw (found, append_line-with_line line files)
                      (rest
                        ∙ ap content (append_assoc before (line ∷ []) (recorded files.stats runs)))
              ])
      ]

  -- If the summary's directory can be made: after any number of runs over a summary that was not
  -- there, it is not there as long as no run has found an aggregate, and otherwise holds one
  -- header and then a line for each run that did, in order.
  pub run_all-summary :
      (runs : List Run) (files : Files)
      → files.summary summary_csv ≡ none
      → (run_all os summary_csv runs files).summary summary_csv
        ≡ content (recorded files.stats runs)
  unfolding content
  run_all-summary runs files = run_all-content runs [] files
